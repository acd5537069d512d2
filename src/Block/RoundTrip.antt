-- ===== src/Block/RoundTrip.antt =====
-- Building, compressing, encoding and decoding a block of storage/block.rs.
use apex_store.Base.{
  ℕ, ◌+◌, ◌%◌, ◌^◌, ◌<◌, ◌≤◌, ◌≡◌, refl, sym, ap, ◌∙◌, subst, Bool, false, Option, none, some, List,
  [], ◌∷◌, length, if◌then◌else◌, arith, length-append, All, ◌==◌, nat_eq,
}
use apex_store.Base.Bytes.{Bytes}
use apex_store.Error.{Result, ok, err}
use apex_store.Block
use apex_store.Block.{
  Block, add, compress_keys, with_flag, encode, decode, decoded, default_block_size,
}
use apex_store.Block.Prefix.{compress_block_data, entry_bytes, decompress_block_data}
use apex_store.Block.Layout.{standard, starts, length-entry_bytes}
use apex_store.Block.Compressed.{compact, IsSmall, HasKey}
use apex_store.Block.Restored.{
  shortened, shortened_starts, SharesFewBytes, compress_block_data-standard,
  decompress_block_data-shortened,
}
use apex_store.Block.Encoded.{FitsWord, decode-encode_block, length-encode}
use apex_store.Block.Built.{
  add_all, Holds, built-Holds, standard-IsSmall, length-compact, starts-FitsWord,
  compact_starts-FitsWord, length-compact_starts,
}

length-starts : (n : ℕ) (es : List (Bytes × Bytes)) → length (starts n es) ≤ length (standard es)
length-starts n [] = omega arith
length-starts n ((k, v) ∷ es) = omega (
  arith,
  length-starts (n + length (entry_bytes k v)) es,
  length-append (entry_bytes k v) (standard es),
  length-entry_bytes k v,
)

-- A block that was built by adding entries encodes to at most its size in bytes.
pub length-encode_built :
    (crc32 : Bytes → ℕ) (size : ℕ) (es : List (Bytes × Bytes)) (b : Block)
    → ((bytes : Bytes) → crc32 bytes < 2 ^ 32)
    → 9 ≤ size
    → size ≤ 65536
    → add_all es (Block.new size) ≡ some b
    → length (encode crc32 b) ≤ size
length-encode_built crc32 size es b sums nine small built =
    let h : Holds size es b = built-Holds size es b small built in
    omega (arith, length-encode crc32 sums b, h.fits, nine)

-- The total of a block's entries.
pub standard-small :
    (size : ℕ) (es : List (Bytes × Bytes)) (b : Block)
    → size ≤ 65536
    → Holds size es b
    → length (standard es) < 65536
standard-small size es b small h = omega (arith, small, h.fits, ap length h.entries)

-- A block that was built by adding entries, of a size of at most 64 KiB, decodes from its encoding to
-- itself, with the default size.
pub decode-encode_built :
    (crc32 : Bytes → ℕ) (size : ℕ) (es : List (Bytes × Bytes)) (b : Block)
    → ((bytes : Bytes) → crc32 bytes < 2 ^ 32)
    → size ≤ 65536
    → add_all es (Block.new size) ≡ some b
    → decode crc32 (encode crc32 b) ≡ some (ok (record b { block_size = default_block_size }))
unfolding decoded
decode-encode_built crc32 size es b sums small built =
    decode-encode_block crc32 sums b
      (subst (All FitsWord) (sym h.positions) (starts-FitsWord 0 es (omega (arith, total))))
      (omega (arith, ap length h.positions, length-starts 0 es, total))
    ∙ ap
        (λ (t : Bool).
          if t then decompressed else some (ok (record b { block_size = default_block_size })))
        unflagged
  where
    h : Holds size es b
    h = built-Holds size es b small built

    total : length (standard es) < 65536
    total = standard-small size es b small h

    unflagged : (b.flags % 2 == 1) ≡ false
    unflagged = ground (arith, h.plain)

    decompressed : Option (Result Block)
    decompressed = elim (decompress_block_data b.data_bytes b.offsets) [
      | none ↦ none
      | some (err e) ↦ some (err e)
      | some (ok (data_bytes, new_offsets)) ↦ some (
          ok (record {
            data_bytes = data_bytes;
            offsets = new_offsets;
            block_size = default_block_size;
            flags = b.flags;
          }))
    ]

-- A block with the flag set.
abbrev flagged : Bytes → List ℕ → ℕ → Block
flagged data_bytes offsets size = record {
  data_bytes = data_bytes;
  offsets = offsets;
  block_size = size;
  flags = 1;
}

decoded-flagged :
    (size : ℕ) (es : List (Bytes × Bytes))
    → SharesFewBytes es
    → All IsSmall es
    → length (standard es) < 2 ^ 32
    → decoded (shortened es) (shortened_starts es) 1
      ≡ some (ok (flagged (standard es) (starts 0 es) default_block_size))
unfolding decoded
decoded-flagged size es few small fits = rw (decompress_block_data-shortened es few small fits) refl

shortened_starts-FitsWord :
    (es : List (Bytes × Bytes)) → length (standard es) < 65536 → All FitsWord (shortened_starts es)
shortened_starts-FitsWord [] h = tt
shortened_starts-FitsWord ((k, v) ∷ es) h = (
  omega arith,
  compact_starts-FitsWord (length (entry_bytes k v)) k es
      (omega (arith, h, length-compact k es, length-append (entry_bytes k v) (standard es))),
)

length-shortened_starts :
    (es : List (Bytes × Bytes))
    → length (standard es) < 65536
    → length (shortened_starts es) < 2 ^ 32
length-shortened_starts [] h = omega arith
length-shortened_starts ((k, v) ∷ es) h = omega (
  arith,
  h,
  length-compact_starts (length (entry_bytes k v)) k es,
  length-append (entry_bytes k v) (standard es),
)

length-shortened :
    (es : List (Bytes × Bytes)) → length (standard es) < 65536 → length (shortened es) < 2 ^ 32
length-shortened [] h = omega arith
length-shortened ((k, v) ∷ es) h = omega (
  arith,
  h,
  length-compact k es,
  length-append (entry_bytes k v) (compact k es),
  length-append (entry_bytes k v) (standard es),
)

-- What `compress_keys` makes of the compressor's result.
abbrev pub replaced : Block → Option (Result (Bytes × List ℕ)) → Option Block
replaced b none = none
replaced b (some (err e)) = none
replaced b (some (ok (bytes, offsets))) =
    some (record b { data_bytes = bytes; offsets = offsets; flags = with_flag b.flags })

pub compress_keys-by :
    (b : Block) (o : ℕ) (os : List ℕ)
    → b.offsets ≡ o ∷ os
    → compress_keys b ≡ replaced b (compress_block_data b.data_bytes b.offsets)
unfolding compress_keys
compress_keys-by b o os some_entry =
    ap
      (λ (offsets : List ℕ). elim offsets [
        | [] ↦ some b
        | p ∷ ps ↦ replaced b (compress_block_data b.data_bytes b.offsets)
      ])
      some_entry

pub compressor-by :
    (size : ℕ) (es : List (Bytes × Bytes)) (b : Block)
    → Holds size es b
    → compress_block_data b.data_bytes b.offsets ≡ compress_block_data (standard es) (starts 0 es)
compressor-by size es b h =
    ap (λ (d : Bytes). compress_block_data d b.offsets) h.entries
    ∙ ap (compress_block_data (standard es)) h.positions

-- A block of at least one entry that was built by adding entries, of a size of at most 64 KiB, whose
-- keys are not empty and share at most 255 bytes with the one before: its keys are compressed without
-- a panic, and the compressed block's encoding decodes to the built block, with the default size and
-- the flag set.
pub decode-compress_keys :
    (crc32 : Bytes → ℕ) (size : ℕ) (k v : Bytes) (es : List (Bytes × Bytes)) (b : Block)
    → ((bytes : Bytes) → crc32 bytes < 2 ^ 32)
    → size ≤ 65536
    → add_all ((k, v) ∷ es) (Block.new size) ≡ some b
    → SharesFewBytes ((k, v) ∷ es)
    → All HasKey ((k, v) ∷ es)
    → (c : Block) × (compress_keys b ≡ some c)
      × (decode crc32 (encode crc32 c)
          ≡ some (ok (record b { block_size = default_block_size; flags = 1 })))
decode-compress_keys crc32 size k v es b sums small built few keys = (
  c,
  compress_keys-by b 0 (starts (0 + length (entry_bytes k v)) es) h.positions
      ∙ ap (replaced b) (
          compressor-by size all b h
          ∙ compress_block_data-standard all few (standard-IsSmall all total) keys
              (length-shortened all total))
      ∙ ap (λ (n : ℕ). some (record c { flags = with_flag n })) h.plain,
  decode-encode_block crc32 sums c (shortened_starts-FitsWord all total)
        (length-shortened_starts all total)
      ∙ decoded-flagged size all few (standard-IsSmall all total) (omega (arith, total))
      ∙ ap (λ (d : Bytes). some (ok (flagged d (starts 0 all) default_block_size))) (sym h.entries)
      ∙ ap (λ (os : List ℕ). some (ok (flagged b.data_bytes os default_block_size)))
          (sym h.positions),
)
  where
    all : List (Bytes × Bytes)
    all = (k, v) ∷ es

    h : Holds size ((k, v) ∷ es) b
    h = built-Holds size ((k, v) ∷ es) b small built

    total : length (standard ((k, v) ∷ es)) < 65536
    total = standard-small size ((k, v) ∷ es) b small h

    c : Block
    c = record b {
      data_bytes = shortened ((k, v) ∷ es);
      offsets = shortened_starts ((k, v) ∷ es);
      flags = 1;
    }
