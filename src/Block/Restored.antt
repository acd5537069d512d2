-- ===== src/Block/Restored.antt =====
-- The decompression of storage/prefix_compression.rs undoes its compression.
use apex_store.Base.{
  ℕ, ◌+◌, ◌%◌, ◌^◌, ◌<◌, ◌≤◌, ◌≡◌, refl, sym, ap, ◌∙◌, Bool, false, Option, some, List, [], ◌∷◌,
  ◌++◌, length, take, drop, ltb, if◌then◌else◌, arith, length-append, length-take, length-drop,
  take-append-drop, append_assoc, append-nil, All,
}
use apex_store.Base.Bytes.{Bytes}
use apex_store.Base.Words.{of_le_bytes}
use apex_store.Error.{Result, ok, err, corrupted_data}
use apex_store.Block.Prefix.{
  u16, sliced, shared_prefix_len, with_offset, read_value, read_entry, compress_from, entry_bytes,
  decompress_from, compress_block_data, decompress_block_data, compressed_key,
}
use apex_store.Block.Layout.{
  length-u16, of_le_bytes-u16, sliced-append, read_value-append, read_entry-append, standard,
  starts, length-entry_bytes,
}
use apex_store.Block.Compressed.{
  suffix, short_key, short_entry, compact, compact_starts, SharesFew, IsSmall, HasKey,
  shared_prefix_len-le, take-shared_prefix_len, with_offset-some, compress_from-standard,
  starts-append,
}

of_le_bytes-byte : (n : ℕ) → n ≤ 255 → of_le_bytes (n % 256 ∷ []) ≡ n
unfolding of_le_bytes
of_le_bytes-byte n h = omega (arith, h)

not_past {ℓ} : {A : Type ℓ} (n m : ℕ) (x y : A) → m ≤ n → (if ltb n m then x else y) ≡ y
not_past n m x y h = ap (λ (b : Bool). if b then x else y) less
  where
    less : ltb n m ≡ false
    less = ground (arith, h)

module _ (whole prev k v more out : Bytes) (os : List ℕ) where
  -- The rest of a round, once the parts of the entry are read.
  abbrev round : Bytes → Bytes → Bytes → Option (Result (Bytes × List ℕ))
  round shared suffix_bytes value = with_offset (length out) (
      decompress_from whole (shared ++ suffix_bytes) os
        (out ++ entry_bytes (shared ++ suffix_bytes) value))

  abbrev after_suffix : ℕ → ℕ → ℕ → Bytes → Option (Result (Bytes × List ℕ))
  after_suffix o n len suffix_bytes =
      sliced 0 n prev (λ shared. read_value (o + 1 + 2 + len) whole (round shared suffix_bytes))

  abbrev after_length : ℕ → ℕ → ℕ → Option (Result (Bytes × List ℕ))
  after_length o n len =
      if ltb (length whole) (o + 1 + 2 + len + 2)
      then some (err corrupted_data)
      else sliced (o + 1 + 2) len whole (after_suffix o n len)

  round-short :
      (pre : Bytes)
      → whole ≡ pre ++ (short_entry prev k v ++ more)
      → shared_prefix_len prev k ≤ 255
      → length k < 65536
      → length v < 65536
      → decompress_from whole prev (length pre ∷ os) out
        ≡ with_offset (length out) (decompress_from whole k os (out ++ entry_bytes k v))
  unfolding decompress_from
  round-short pre w few small small' =
      not_past (length whole) (length pre + 1 + 2) (some (err corrupted_data)) _
        (omega (arith, long))
      ∙ sliced-append (length pre) 1 whole pre shared_byte
          (size_bytes ++ (su ++ (u16 (length v) ++ (v ++ more))))
          (λ shared_byte. sliced (length pre + 1) 2 whole (λ suffix_len.
            after_length (length pre) (of_le_bytes shared_byte) (of_le_bytes suffix_len)))
          (w ∙ simp append_assoc refl) refl refl
      ∙ sliced-append (length pre + 1) 2 whole (pre ++ shared_byte) size_bytes
          (su ++ (u16 (length v) ++ (v ++ more)))
          (λ suffix_len.
            after_length (length pre) (of_le_bytes shared_byte) (of_le_bytes suffix_len))
          (w ∙ simp append_assoc refl) (omega (arith, length-append pre shared_byte))
          (sym (length-u16 (length su)))
      ∙ not_past (length whole) (length pre + 1 + 2 + of_le_bytes size_bytes + 2)
          (some (err corrupted_data))
          (sliced (length pre + 1 + 2) (of_le_bytes size_bytes) whole
            (after_suffix (length pre) (of_le_bytes shared_byte) (of_le_bytes size_bytes)))
          (omega (arith, long, size))
      ∙ sliced-append (length pre + 1 + 2) (of_le_bytes size_bytes) whole
          (pre ++ (shared_byte ++ size_bytes)) su (u16 (length v) ++ (v ++ more))
          (after_suffix (length pre) (of_le_bytes shared_byte) (of_le_bytes size_bytes))
          (w ∙ simp append_assoc refl)
          (omega (
            arith,
            length-append pre (shared_byte ++ size_bytes),
            length-append shared_byte size_bytes,
            length-u16 (length su),
          ))
          size
      ∙ sliced-append 0 (of_le_bytes shared_byte) prev [] (take sh prev) (drop sh prev)
          (λ shared.
            read_value (length pre + 1 + 2 + of_le_bytes size_bytes) whole (round shared su))
          (sym (take-append-drop sh prev)) refl
          (shared ∙ omega (arith, length-take sh prev, (shared_prefix_len-le prev k).0))
      ∙ read_value-append (length pre + 1 + 2 + of_le_bytes size_bytes) whole
          (pre ++ (shared_byte ++ (size_bytes ++ su))) v more (round (take sh prev) su)
          (w ∙ simp append_assoc refl)
          (omega (
            arith,
            size,
            length-append pre (shared_byte ++ (size_bytes ++ su)),
            length-append shared_byte (size_bytes ++ su),
            length-append size_bytes su,
            length-u16 (length su),
          ))
          small'
      ∙ ap
          (λ (key : Bytes).
            with_offset (length out) (decompress_from whole key os (out ++ entry_bytes key v)))
          (take-shared_prefix_len prev k)
    where
      sh : ℕ
      sh = shared_prefix_len prev k

      su : Bytes
      su = suffix prev k

      shared_byte : Bytes
      shared_byte = sh % 256 ∷ []

      size_bytes : Bytes
      size_bytes = u16 (length su)

      size : of_le_bytes (u16 (length (suffix prev k))) ≡ length (suffix prev k)
      size =
          of_le_bytes-u16 (length (suffix prev k))
            (omega (arith, small, length-drop (shared_prefix_len prev k) k))

      shared : of_le_bytes (shared_prefix_len prev k % 256 ∷ []) ≡ shared_prefix_len prev k
      shared = of_le_bytes-byte (shared_prefix_len prev k) few

      long : length whole ≡ length pre + 1 + 2 + length (suffix prev k) + 2 + length v + length more
      long =
          ap length w
          ∙ omega (
            arith,
            length-append pre (short_entry prev k v ++ more),
            length-append (short_entry prev k v) more,
            length-append (short_key prev k) (u16 (length v) ++ v),
            length-append (u16 (length v)) v,
            length-u16 (length v),
            length-append (u16 (length (suffix prev k))) (suffix prev k),
            length-u16 (length (suffix prev k)),
          )

pub decompress_from-compact :
    (whole pre prev : Bytes) (es : List (Bytes × Bytes)) (out : Bytes)
    → whole ≡ pre ++ compact prev es
    → SharesFew prev es
    → All IsSmall es
    → length out + length (standard es) < 2 ^ 32
    → decompress_from whole prev (compact_starts (length pre) prev es) out
      ≡ some (ok (out ++ standard es, starts (length out) es))
unfolding decompress_from
decompress_from-compact whole pre prev [] out w few small fits =
    ap (λ (b : Bytes). some (ok (b, []))) (sym (append-nil out))
decompress_from-compact whole pre prev ((k, v) ∷ es) out w few small fits =
    let out' : Bytes = out ++ entry_bytes k v in
    let rec =
      decompress_from-compact whole (pre ++ short_entry prev k v) k es out'
        (w ∙ simp append_assoc refl) few.1 small.1
        (omega (
          arith,
          fits,
          length-append out (entry_bytes k v),
          length-append (entry_bytes k v) (standard es),
        )) in
    round-short whole prev k v (compact k es) out
      (compact_starts (length pre + length (short_entry prev k v)) k es) pre w few.0 small.0.0
      small.0.1
    ∙ ap
        (λ (n : ℕ). with_offset (length out) (decompress_from whole k (compact_starts n k es) out'))
        (sym (length-append pre (short_entry prev k v)))
    ∙ ap (with_offset (length out)) rec
    ∙ with_offset-some (length out) (out' ++ standard es) (starts (length out') es)
        (omega (arith, fits))
    ∙ ap (λ (b : Bytes). some (ok (b, length out ∷ starts (length out') es)))
        (append_assoc out (entry_bytes k v) (standard es))
    ∙ ap (λ (os : List ℕ). some (ok (out ++ standard ((k, v) ∷ es), length out ∷ os)))
        (sym (starts-append out (entry_bytes k v) es))

-- A block's entries compressed: the first one in the standard format.
abbrev pub shortened : List (Bytes × Bytes) → Bytes
shortened [] = []
shortened ((k, v) ∷ es) = entry_bytes k v ++ compact k es

abbrev pub shortened_starts : List (Bytes × Bytes) → List ℕ
shortened_starts [] = []
shortened_starts ((k, v) ∷ es) = 0 ∷ compact_starts (length (entry_bytes k v)) k es

abbrev pub SharesFewBytes : List (Bytes × Bytes) → Type 0
SharesFewBytes [] = Unit
SharesFewBytes ((k, v) ∷ es) = SharesFew k es

pub zero_add : (n : ℕ) → 0 + n ≡ n
zero_add n = omega arith

pub compress_block_data-standard :
    (es : List (Bytes × Bytes))
    → SharesFewBytes es
    → All IsSmall es
    → All HasKey es
    → length (shortened es) < 2 ^ 32
    → compress_block_data (standard es) (starts 0 es)
      ≡ some (ok (shortened es, shortened_starts es))
unfolding compress_block_data compress_from compressed_key entry_bytes
compress_block_data-standard [] few small keys fits = refl
compress_block_data-standard ((k, v) ∷ es) few small keys fits =
    read_entry-append 0 whole [] k v (standard es)
      (λ key value. with_offset 0 (
        compress_from whole key (starts (0 + length (entry_bytes k v)) es)
          ((u16 (length key) ++ key) ++ (u16 (length value) ++ value))))
      refl refl small.0.0 small.0.1
    ∙ ap
        (λ (n : ℕ).
          with_offset 0
            (compress_from whole k (starts n es) ((u16 (length k) ++ k) ++ (u16 (length v) ++ v))))
        (zero_add (length (entry_bytes k v)))
    ∙ ap
        (λ (b : Bytes).
          with_offset 0 (compress_from whole k (starts (length (entry_bytes k v)) es) b))
        regroup
    ∙ ap (with_offset 0) (
        compress_from-standard whole (entry_bytes k v) k es (entry_bytes k v) refl keys.0 few
          small.1 keys.1 (omega (arith, fits, length-append (entry_bytes k v) (compact k es))))
    ∙ with_offset-some 0 (shortened ((k, v) ∷ es)) (compact_starts (length (entry_bytes k v)) k es)
        (omega arith)
  where
    whole : Bytes
    whole = standard ((k, v) ∷ es)

    regroup : (u16 (length k) ++ k) ++ (u16 (length v) ++ v) ≡ entry_bytes k v
    regroup = append_assoc (u16 (length k)) k (u16 (length v) ++ v)

pub decompress_block_data-shortened :
    (es : List (Bytes × Bytes))
    → SharesFewBytes es
    → All IsSmall es
    → length (standard es) < 2 ^ 32
    → decompress_block_data (shortened es) (shortened_starts es)
      ≡ some (ok (standard es, starts 0 es))
unfolding decompress_block_data entry_bytes
decompress_block_data-shortened [] few small fits = refl
decompress_block_data-shortened ((k, v) ∷ es) few small fits =
    not_past (length whole) (0 + 2) (some (err corrupted_data)) _ (omega (arith, long))
    ∙ sliced-append 0 2 whole [] (u16 (length k)) (k ++ (u16 (length v) ++ (v ++ compact k es)))
        (λ key_len.
          if ltb (length whole) (0 + 2 + of_le_bytes key_len + 2)
          then some (err corrupted_data)
          else read_entry 0 whole after_entry)
        (simp append_assoc refl) refl (sym (length-u16 (length k)))
    ∙ not_past (length whole) (0 + 2 + of_le_bytes (u16 (length k)) + 2) (some (err corrupted_data))
        (read_entry 0 whole after_entry) (omega (arith, long, of_le_bytes-u16 (length k) small.0.0))
    ∙ read_entry-append 0 whole [] k v (compact k es) after_entry refl refl small.0.0 small.0.1
    ∙ ap (with_offset 0) (
        decompress_from-compact whole (entry_bytes k v) k es (entry_bytes k v) refl few small.1
          (omega (arith, fits, length-append (entry_bytes k v) (standard es))))
    ∙ with_offset-some 0 (standard ((k, v) ∷ es)) (starts (length (entry_bytes k v)) es)
        (omega arith)
    ∙ ap (λ (n : ℕ). some (ok (standard ((k, v) ∷ es), 0 ∷ starts n es)))
        (sym (zero_add (length (entry_bytes k v))))
  where
    whole : Bytes
    whole = shortened ((k, v) ∷ es)

    after_entry : Bytes → Bytes → Option (Result (Bytes × List ℕ))
    after_entry key value = with_offset 0 (
        decompress_from whole key (compact_starts (length (entry_bytes k v)) k es)
          (entry_bytes key value))

    long : length (shortened ((k, v) ∷ es)) ≡ 4 + length k + length v + length (compact k es)
    long = omega (arith, length-append (entry_bytes k v) (compact k es), length-entry_bytes k v)
