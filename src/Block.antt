-- ===== src/Block.antt =====
-- storage/block.rs: the blocks of an SSTable. `none` is a panic; `crc32fast` is an argument.
pub mod Prefix
pub mod Panics
pub mod RoundTrip
pub mod Built
pub mod Encoded
pub mod Restored
pub mod Compressed
pub mod Layout
use apex_store.Base.{
  ℕ, ◌+◌, ◌-◌, ◌*◌, ◌%◌, ◌^◌, Bool, true, false, Option, none, some, List, [], ◌∷◌, ◌++◌, length,
  take, drop, leb, ltb, if◌then◌else◌, ◌==◌, nat_eq, map, zero, suc,
}
use apex_store.Base.Bytes.{Bytes}
use apex_store.Base.Words.{le_bytes, of_le_bytes}
use apex_store.Error.{Result, ok, err, corrupted_data}
use apex_store.Block.Prefix.{u16, u32, sliced, compress_block_data, decompress_block_data}

abbrev pub default_block_size : ℕ
default_block_size = 4096

pub record Block : Type 0 where
  pub data_bytes : Bytes
  pub offsets : List ℕ
  pub block_size : ℕ
  pub flags : ℕ

unfoldable pub new : ℕ → Block
new block_size = record { data_bytes = []; offsets = []; block_size = block_size; flags = 0 }

-- `flags & 1 != 0`
unfoldable pub is_prefix_compressed : Block → Bool
is_prefix_compressed b = b.flags % 2 == 1

-- `flags | 1`
abbrev pub with_flag : ℕ → ℕ
with_flag flags = if flags % 2 == 1 then flags else flags + 1

unfoldable pub set_prefix_compressed : Block → Block
set_prefix_compressed b = record b { flags = with_flag b.flags }

-- `expect` panics on an error.
unfoldable pub compress_keys : Block → Option Block
unfolding compress_block_data
compress_keys b = elim b.offsets [
  | [] ↦ some b
  | o ∷ os ↦ elim (compress_block_data b.data_bytes b.offsets) [
    | none ↦ none
    | some (err e) ↦ none
    | some (ok (data_bytes, offsets)) ↦
        some (record b { data_bytes = data_bytes; offsets = offsets; flags = with_flag b.flags })
  ]
]

unfoldable pub entry_size : Bytes → Bytes → ℕ
entry_size key value = 2 + length key + 2 + length value

unfoldable pub metadata_size : ℕ → ℕ
metadata_size num_entries = num_entries * 4 + 4 + 1

unfoldable pub current_size : Block → ℕ
unfolding metadata_size
current_size b = length b.data_bytes + metadata_size (length b.offsets) + 4

unfoldable pub add : Bytes → Bytes → Block → Bool × Block
unfolding current_size entry_size u16
add key value b =
    if ltb b.block_size (current_size b + entry_size key value + 4) then (false, b) else (
      true,
      record b {
        data_bytes = b.data_bytes ++ (u16 (length key) ++ (key ++ (u16 (length value) ++ value)));
        offsets = b.offsets ++ (length b.data_bytes % 2 ^ 32) ∷ [];
      },
    )

unfoldable pub words : List ℕ → Bytes
unfolding u32
words [] = []
words (n ∷ ns) = u32 n ++ words ns

-- What the checksum is taken of.
unfoldable pub body : Block → Bytes
unfolding words u32
body b = b.data_bytes ++ (words b.offsets ++ (u32 (length b.offsets) ++ b.flags ∷ []))

unfoldable pub encode : (Bytes → ℕ) → Block → Bytes
unfolding body
encode crc32 b = body b ++ le_bytes 4 (crc32 (body b))

-- The loop over the offsets, from a position on.
unfoldable pub read_words : ℕ → Bytes → Option (List ℕ)
unfolding sliced
read_words zero bytes = some []
read_words (suc n) bytes = sliced 0 4 bytes (λ word. elim (read_words n (drop 4 bytes)) [
  | none ↦ none
  | some ns ↦ some (of_le_bytes word ∷ ns)
])

unfoldable pub decoded : Bytes → List ℕ → ℕ → Option (Result Block)
unfolding decompress_block_data
decoded raw_data offsets flags =
    if flags % 2 == 1
    then elim (decompress_block_data raw_data offsets) [
      | none ↦ none
      | some (err e) ↦ some (err e)
      | some (ok (data_bytes, new_offsets)) ↦ some (
          ok (record {
            data_bytes = data_bytes;
            offsets = new_offsets;
            block_size = default_block_size;
            flags = flags;
          }))
    ]
    else some (
        ok (record {
          data_bytes = raw_data;
          offsets = offsets;
          block_size = default_block_size;
          flags = flags;
        }))

-- `count` words of offsets end at `stop`; a subtraction below 0 panics.
unfoldable pub split_offsets : Bytes → ℕ → ℕ → ℕ → Option (Result Block)
unfolding read_words decoded
split_offsets bytes stop count flags =
    if ltb stop (count * 4) then none else elim (read_words count (drop (stop - count * 4) bytes)) [
      | none ↦ none
      | some offsets ↦ decoded (take (stop - count * 4) bytes) offsets flags
    ]

unfoldable pub decode : (Bytes → ℕ) → Bytes → Option (Result Block)
unfolding sliced split_offsets
decode crc32 data_bytes =
    if ltb (length data_bytes) 9
    then some (err corrupted_data)
    else (let checksum_start = length data_bytes - 4 in
        sliced checksum_start 4 data_bytes (λ stored.
          let without_checksum = take checksum_start data_bytes in
          if of_le_bytes stored == crc32 without_checksum
          then sliced (checksum_start - 1) 1 without_checksum (λ flags.
            sliced (checksum_start - 1 - 4) 4 without_checksum (λ count.
              split_offsets without_checksum (checksum_start - 1 - 4) (of_le_bytes count)
                (of_le_bytes flags)))
          else some (err corrupted_data)))

unfoldable pub len : Block → ℕ
len b = length b.offsets

unfoldable pub data_size : Block → ℕ
data_size b = length b.data_bytes
