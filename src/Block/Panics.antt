-- ===== src/Block/Panics.antt =====
-- Keys that `compress_keys` of storage/block.rs panics on.
use apex_store.Base.{
  ℕ, ◌+◌, ◌<◌, ◌≤◌, ◌≡◌, refl, ap, ◌∙◌, Bool, true, Option, none, some, List, [], ◌∷◌, ◌++◌, length,
  ltb, if◌then◌else◌, arith, append_assoc, All, Bool-cases, inl, inr,
}
use apex_store.Base.Bytes.{Bytes}
use apex_store.Error.{Result, ok, err, invalid_argument}
use apex_store.Block
use apex_store.Block.{Block, compress_keys}
use apex_store.Block.Prefix.{
  compress_block_data, compress_from, compressed_key, suffixed, with_offset, shared_prefix_len,
  entry_bytes, u16, max_shared_prefix,
}
use apex_store.Block.Layout.{standard, starts, read_entry-append}
use apex_store.Block.Compressed.{
  SharesFew, IsSmall, HasKey, short_key, starts-append, compressed_key-short,
}
use apex_store.Block.Restored.{SharesFewBytes, zero_add}
use apex_store.Block.Built.{add_all, Holds, built-Holds, standard-IsSmall}
use apex_store.Block.RoundTrip.{compress_keys-by, compressor-by, standard-small, replaced}

compressed_key-long :
    (prev key : Bytes)
    → 1 ≤ length prev
    → 255 < shared_prefix_len prev key
    → compressed_key prev key ≡ err invalid_argument
unfolding compressed_key suffixed
compressed_key-long [] key h long = ground (arith, h)
compressed_key-long (x ∷ prev) key h long =
    ap (λ (b : Bool). if b then err invalid_argument else ok (short_key (x ∷ prev) key))
      (past (shared_prefix_len (x ∷ prev) key) long)
  where
    past : (n : ℕ) → 255 < n → ltb max_shared_prefix n ≡ true
    past n h = ground (arith, h)

-- A round of the loop, once its entry is read.
abbrev after_key :
    Bytes → Bytes → Bytes → List ℕ → Bytes → Result Bytes → Option (Result (Bytes × List ℕ))
after_key whole k v os out (err e) = some (err e)
after_key whole k v os out (ok bytes) =
    with_offset (length out) (compress_from whole k os (out ++ (bytes ++ (u16 (length v) ++ v))))

compress_from-round :
    (whole pre prev k v more out : Bytes) (os : List ℕ)
    → whole ≡ pre ++ (entry_bytes k v ++ more)
    → IsSmall (k, v)
    → compress_from whole prev (length pre ∷ os) out
      ≡ after_key whole k v os out (compressed_key prev k)
unfolding compress_from
compress_from-round whole pre prev k v more out os w small =
    read_entry-append (length pre) whole pre k v more
      (λ key value. after_key whole key value os out (compressed_key prev key)) w refl small.0
      small.1

with_offset-err :
    (n : ℕ) → with_offset n (some (err invalid_argument)) ≡ some (err invalid_argument)
unfolding with_offset
with_offset-err n = refl

compress_from-refuses :
    (whole pre prev : Bytes) (es : List (Bytes × Bytes)) (out : Bytes)
    → whole ≡ pre ++ standard es
    → 1 ≤ length prev
    → All IsSmall es
    → All HasKey es
    → ¬ SharesFew prev es
    → compress_from whole prev (starts (length pre) es) out ≡ some (err invalid_argument)
compress_from-refuses whole pre prev [] out w p small keys many = elim (many tt) [ ]
compress_from-refuses whole pre prev ((k, v) ∷ es) out w p small keys many =
    let next = λ (out' : Bytes) (h : ¬ SharesFew k es).
      compress_from-refuses whole (pre ++ entry_bytes k v) k es out' (w ∙ simp append_assoc refl)
        keys.0 small.1 keys.1 h in
    compress_from-round whole pre prev k v (standard es) out
      (starts (length pre + length (entry_bytes k v)) es) w small.0
    ∙ elim (Bool-cases (ltb 255 (shared_prefix_len prev k))) [
      | inl long ↦
          ap (after_key whole k v (starts (length pre + length (entry_bytes k v)) es) out)
            (compressed_key-long prev k p (ground (arith, long)))
      | inr few ↦
          ap (after_key whole k v (starts (length pre + length (entry_bytes k v)) es) out)
            (compressed_key-short prev k p (ground (arith, few)))
          ∙ ap
              (λ (os : List ℕ).
                with_offset (length out)
                  (compress_from whole k os (out ++ (short_key prev k ++ (u16 (length v) ++ v)))))
              (starts-append pre (entry_bytes k v) es)
          ∙ ap (with_offset (length out)) (
              next (out ++ (short_key prev k ++ (u16 (length v) ++ v)))
                (λ rest. many (ground (arith, few), rest)))
          ∙ with_offset-err (length out)
    ]

-- A block of at least one entry that was built by adding entries, of a size of at most 64 KiB, whose
-- keys are not empty, panics when its keys are compressed, if one of them shares more than 255 bytes
-- with the one before.
pub compress_keys-panics :
    (size : ℕ) (k v : Bytes) (es : List (Bytes × Bytes)) (b : Block)
    → size ≤ 65536
    → add_all ((k, v) ∷ es) (Block.new size) ≡ some b
    → All HasKey ((k, v) ∷ es)
    → ¬ SharesFewBytes ((k, v) ∷ es)
    → compress_keys b ≡ none
unfolding compress_block_data compressed_key
compress_keys-panics size k v es b small built keys many =
    compress_keys-by b 0 (starts (0 + length (entry_bytes k v)) es) h.positions
    ∙ ap (replaced b) (
        compressor-by size ((k, v) ∷ es) b h
        ∙ compress_from-round whole [] [] k v (standard es) []
            (starts (0 + length (entry_bytes k v)) es) refl smalls.0
        ∙ ap
            (λ (n : ℕ). with_offset 0 (
              compress_from whole k (starts n es) ((u16 (length k) ++ k) ++ (u16 (length v) ++ v))))
            (zero_add (length (entry_bytes k v)))
        ∙ ap (with_offset 0) (
            compress_from-refuses whole (entry_bytes k v) k es
              ((u16 (length k) ++ k) ++ (u16 (length v) ++ v)) refl keys.0 smalls.1 keys.1 many)
        ∙ with_offset-err 0)
  where
    h : Holds size ((k, v) ∷ es) b
    h = built-Holds size ((k, v) ∷ es) b small built

    smalls : All IsSmall ((k, v) ∷ es)
    smalls = standard-IsSmall ((k, v) ∷ es) (standard-small size ((k, v) ∷ es) b small h)

    whole : Bytes
    whole = standard ((k, v) ∷ es)
