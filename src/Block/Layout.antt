-- ===== src/Block/Layout.antt =====
-- The layouts of entries that storage/block.rs and storage/prefix_compression.rs write and read.
use apex_store.Base.{
  ℕ, ◌+◌, ◌%◌, ◌^◌, ◌<◌, ◌≡◌, refl, sym, ap, ◌∙◌, Bool, true, Option, none, List, [], ◌∷◌, ◌++◌,
  length, take, drop, leb, if◌then◌else◌, nat_eq, arith, length-append, take-append, drop-append,
  append_assoc,
}
use apex_store.Base.Bytes.{Bytes}
use apex_store.Base.Words.{of_le_bytes, length-le_bytes, of_le_bytes-le_bytes}
use apex_store.Block.Prefix.{u16, u32, sliced, read_value, read_entry, entry_bytes}

pub length-u16 : (n : ℕ) → length (u16 n) ≡ 2
unfolding u16
length-u16 n = length-le_bytes 2 (n % 2 ^ 16)

pub length-u32 : (n : ℕ) → length (u32 n) ≡ 4
unfolding u32
length-u32 n = length-le_bytes 4 (n % 2 ^ 32)

pub of_le_bytes-u16 : (n : ℕ) → n < 65536 → of_le_bytes (u16 n) ≡ n
unfolding u16
of_le_bytes-u16 n h = of_le_bytes-le_bytes 2 (n % 2 ^ 16) (omega (arith, h)) ∙ omega (arith, h)

pub of_le_bytes-u32 : (n : ℕ) → n < 2 ^ 32 → of_le_bytes (u32 n) ≡ n
unfolding u32
of_le_bytes-u32 n h = of_le_bytes-le_bytes 4 (n % 2 ^ 32) (omega (arith, h)) ∙ omega (arith, h)

module _ {ℓ} {T : Type ℓ} where
  pub sliced-append :
      (start n : ℕ) (whole pre a rest : Bytes) (next : Bytes → Option T)
      → whole ≡ pre ++ (a ++ rest)
      → start ≡ length pre
      → n ≡ length a
      → sliced start n whole next ≡ next a
  unfolding sliced
  sliced-append start n whole pre a rest next w s l =
      ap (λ (b : Bool). if b then next (take n (drop start whole)) else none) fits
      ∙ ap next (
          ap (λ (b : Bytes). take n (drop start b)) w
          ∙ ap (λ (m : ℕ). take n (drop m (pre ++ (a ++ rest)))) s
          ∙ ap (take n) (drop-append pre (a ++ rest))
          ∙ ap (λ (m : ℕ). take m (a ++ rest)) l
          ∙ take-append a rest)
    where
      fits : leb (start + n) (length whole) ≡ true
      fits = ground (arith, ap length w, length-append pre (a ++ rest), length-append a rest, s, l)

  pub read_value-append :
      (start : ℕ) (whole pre v rest : Bytes) (next : Bytes → Option T)
      → whole ≡ pre ++ (u16 (length v) ++ (v ++ rest))
      → start ≡ length pre
      → length v < 65536
      → read_value start whole next ≡ next v
  unfolding read_value
  read_value-append start whole pre v rest next w s small =
      sliced-append start 2 whole pre (u16 (length v)) (v ++ rest)
        (λ val_len. sliced (start + 2) (of_le_bytes val_len) whole next) w s
        (sym (length-u16 (length v)))
      ∙ sliced-append (start + 2) (of_le_bytes (u16 (length v))) whole (pre ++ u16 (length v)) v
          rest next (w ∙ sym (append_assoc pre (u16 (length v)) (v ++ rest)))
          (omega (arith, s, length-append pre (u16 (length v)), length-u16 (length v)))
          (of_le_bytes-u16 (length v) small)

  pub read_entry-append :
      (start : ℕ) (whole pre k v rest : Bytes) (next : Bytes → Bytes → Option T)
      → whole ≡ pre ++ (entry_bytes k v ++ rest)
      → start ≡ length pre
      → length k < 65536
      → length v < 65536
      → read_entry start whole next ≡ next k v
  unfolding read_entry entry_bytes
  read_entry-append start whole pre k v rest next w s small small' =
      sliced-append start 2 whole pre (u16 (length k)) (k ++ (u16 (length v) ++ (v ++ rest)))
        (λ key_len.
          sliced (start + 2) (of_le_bytes key_len) whole
            (λ key. read_value (start + 2 + of_le_bytes key_len) whole (next key)))
        (w ∙ simp append_assoc refl) s (sym (length-u16 (length k)))
      ∙ sliced-append (start + 2) (of_le_bytes (u16 (length k))) whole (pre ++ u16 (length k)) k
          (u16 (length v) ++ (v ++ rest))
          (λ key. read_value (start + 2 + of_le_bytes (u16 (length k))) whole (next key))
          (w ∙ simp append_assoc refl)
          (omega (arith, s, length-append pre (u16 (length k)), length-u16 (length k)))
          (of_le_bytes-u16 (length k) small)
      ∙ read_value-append (start + 2 + of_le_bytes (u16 (length k))) whole
          (pre ++ (u16 (length k) ++ k)) v rest (next k) (w ∙ simp append_assoc refl)
          (omega (
            arith,
            s,
            length-append pre (u16 (length k) ++ k),
            length-append (u16 (length k)) k,
            length-u16 (length k),
            of_le_bytes-u16 (length k) small,
          ))
          small'

-- Entries in the standard format, and the offsets of entries from a position on.
abbrev pub standard : List (Bytes × Bytes) → Bytes
standard [] = []
standard ((k, v) ∷ es) = entry_bytes k v ++ standard es

abbrev pub starts : ℕ → List (Bytes × Bytes) → List ℕ
starts n [] = []
starts n ((k, v) ∷ es) = n ∷ starts (n + length (entry_bytes k v)) es

pub length-entry_bytes : (k v : Bytes) → length (entry_bytes k v) ≡ 4 + length k + length v
unfolding entry_bytes
length-entry_bytes k v = omega (
  arith,
  length-append (u16 (length k)) (k ++ (u16 (length v) ++ v)),
  length-append k (u16 (length v) ++ v),
  length-append (u16 (length v)) v,
  length-u16 (length k),
  length-u16 (length v),
)
