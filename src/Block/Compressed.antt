-- ===== src/Block/Compressed.antt =====
-- The compressed layout of storage/prefix_compression.rs: what its two loops write and read.
use apex_store.Base.{
  ℕ, ◌+◌, ◌%◌, ◌^◌, ◌<◌, ◌≤◌, ◌≡◌, refl, sym, ap, ◌∙◌, Bool, false, some, List, [], ◌∷◌, ◌++◌,
  length, take, drop, ltb, if◌then◌else◌, ◌==◌, nat_eq, arith, length-append, append_assoc,
  append-nil, All, Bool-cases, inl, inr, nat_beq_iff,
}
use apex_store.Base.Bytes.{Bytes}
use apex_store.Error.{Result, ok, err, invalid_argument}
use apex_store.Block.Prefix.{
  max_shared_prefix, u16, shared_prefix_len, suffixed, compressed_key, with_offset, compress_from,
  entry_bytes,
}
use apex_store.Block.Layout.{read_entry-append, standard, starts}

-- The part of a key after what it shares with the one before.
abbrev pub suffix : Bytes → Bytes → Bytes
suffix prev key = drop (shared_prefix_len prev key) key

abbrev pub short_key : Bytes → Bytes → Bytes
short_key prev key =
    shared_prefix_len prev key % 256 ∷ (u16 (length (suffix prev key)) ++ suffix prev key)

abbrev pub short_entry : Bytes → Bytes → Bytes → Bytes
short_entry prev k v = short_key prev k ++ (u16 (length v) ++ v)

abbrev pub compact : Bytes → List (Bytes × Bytes) → Bytes
compact prev [] = []
compact prev ((k, v) ∷ es) = short_entry prev k v ++ compact k es

abbrev pub compact_starts : ℕ → Bytes → List (Bytes × Bytes) → List ℕ
compact_starts n prev [] = []
compact_starts n prev ((k, v) ∷ es) = n ∷ compact_starts (n + length (short_entry prev k v)) k es

-- No key shares more than 255 bytes with the one before.
abbrev pub SharesFew : Bytes → List (Bytes × Bytes) → Type 0
SharesFew prev [] = Unit
SharesFew prev ((k, v) ∷ es) = (shared_prefix_len prev k ≤ 255) × SharesFew k es

abbrev pub IsSmall : Bytes × Bytes → Type 0
IsSmall e = (length e.0 < 65536) × (length e.1 < 65536)

abbrev pub HasKey : Bytes × Bytes → Type 0
HasKey e = 1 ≤ length e.0

pub shared_prefix_len-le :
    (a b : Bytes) → (shared_prefix_len a b ≤ length a) × (shared_prefix_len a b ≤ length b)
unfolding shared_prefix_len
shared_prefix_len-le [] b = (omega arith, omega arith)
shared_prefix_len-le (x ∷ a) [] = (omega arith, omega arith)
shared_prefix_len-le (x ∷ a) (y ∷ b) = ground (arith, shared_prefix_len-le a b)

pub take-shared_prefix_len :
    (a b : Bytes) → take (shared_prefix_len a b) a ++ drop (shared_prefix_len a b) b ≡ b
unfolding shared_prefix_len
take-shared_prefix_len [] b = refl
take-shared_prefix_len (x ∷ a) [] = refl
take-shared_prefix_len (x ∷ a) (y ∷ b) = elim (Bool-cases (x == y)) [
  | inl same ↦ rw same (
      ap (λ (z : ℕ). z ∷ (take (shared_prefix_len a b) a ++ drop (shared_prefix_len a b) b))
        ((nat_beq_iff x y).0 same)
      ∙ ap (λ (t : Bytes). y ∷ t) (take-shared_prefix_len a b))
  | inr other ↦ rw other refl
]

pub compressed_key-short :
    (prev key : Bytes)
    → 1 ≤ length prev
    → shared_prefix_len prev key ≤ 255
    → compressed_key prev key ≡ ok (short_key prev key)
unfolding compressed_key suffixed
compressed_key-short [] key h few = ground (arith, h)
compressed_key-short (x ∷ prev) key h few =
    ap (λ (b : Bool). if b then err invalid_argument else ok (short_key (x ∷ prev) key))
      (within (shared_prefix_len (x ∷ prev) key) few)
  where
    within : (n : ℕ) → n ≤ 255 → ltb max_shared_prefix n ≡ false
    within n h = ground (arith, h)

pub with_offset-some :
    (n : ℕ) (bytes : Bytes) (offsets : List ℕ)
    → n < 2 ^ 32
    → with_offset n (some (ok (bytes, offsets))) ≡ some (ok (bytes, n ∷ offsets))
unfolding with_offset
with_offset-some n bytes offsets h =
    let same : n % 2 ^ 32 ≡ n = omega (arith, h) in
    ap (λ (m : ℕ). some (ok (bytes, m ∷ offsets))) same

-- The offsets of the rest, from the end of what stands before it.
pub starts-append :
    (a b : Bytes) (es : List (Bytes × Bytes))
    → starts (length a + length b) es ≡ starts (length (a ++ b)) es
starts-append a b es = ap (λ (n : ℕ). starts n es) (sym (length-append a b))

pub compress_from-standard :
    (whole pre prev : Bytes) (es : List (Bytes × Bytes)) (out : Bytes)
    → whole ≡ pre ++ standard es
    → 1 ≤ length prev
    → SharesFew prev es
    → All IsSmall es
    → All HasKey es
    → length out + length (compact prev es) < 2 ^ 32
    → compress_from whole prev (starts (length pre) es) out
      ≡ some (ok (out ++ compact prev es, compact_starts (length out) prev es))
unfolding compress_from
compress_from-standard whole pre prev [] out w p few small keys fits =
    ap (λ (b : Bytes). some (ok (b, []))) (sym (append-nil out))
compress_from-standard whole pre prev ((k, v) ∷ es) out w p few small keys fits =
    let out' : Bytes = out ++ short_entry prev k v in
    let rec =
      compress_from-standard whole (pre ++ entry_bytes k v) k es out' (w ∙ simp append_assoc refl)
        keys.0 few.1 small.1 keys.1
        (omega (
          arith,
          fits,
          length-append out (short_entry prev k v),
          length-append (short_entry prev k v) (compact k es),
        )) in
    read_entry-append (length pre) whole pre k v (standard es)
      (λ key value. elim (compressed_key prev key) [
        | err e ↦ some (err e)
        | ok bytes ↦ with_offset (length out) (
            compress_from whole key (starts (length pre + length (entry_bytes k v)) es)
              (out ++ (bytes ++ (u16 (length value) ++ value))))
      ])
      w refl small.0.0 small.0.1
    ∙ ap
        (λ (r : Result Bytes). elim r [
          | err e ↦ some (err e)
          | ok bytes ↦ with_offset (length out) (
              compress_from whole k (starts (length pre + length (entry_bytes k v)) es)
                (out ++ (bytes ++ (u16 (length v) ++ v))))
        ])
        (compressed_key-short prev k p few.0)
    ∙ ap (λ (os : List ℕ). with_offset (length out) (compress_from whole k os out'))
        (starts-append pre (entry_bytes k v) es)
    ∙ ap (with_offset (length out)) rec
    ∙ with_offset-some (length out) (out' ++ compact k es) (compact_starts (length out') k es)
        (omega (arith, fits))
    ∙ ap (λ (b : Bytes). some (ok (b, length out ∷ compact_starts (length out') k es)))
        (append_assoc out (short_entry prev k v) (compact k es))
    ∙ ap
        (λ (n : ℕ).
          some (ok (out ++ compact prev ((k, v) ∷ es), length out ∷ compact_starts n k es)))
        (length-append out (short_entry prev k v))
