-- ===== src/Base/Bytes.antt =====
-- `Vec<u8>` and `&[u8]` as lists of numbers, and the lexicographic order that Rust gives them.
use apex_store.Base.Tests.{HasEq}
use Prim.Native.Nat.{ℕ, compare, Ordering}
use mathlib.Core.Path.{◌≡◌, refl}
use mathlib.Core.Logic.{◌↔◌}
use mathlib.Core.Bool.{Bool, true, false, not}
use mathlib.Core.List.{List, [], ◌∷◌}
use native.Mathlib.Omega.{arith}

abbrev pub Bytes : Type 0
Bytes = List ℕ

unfoldable pub bytes_lt : Bytes → Bytes → Bool
bytes_lt xs [] = false
bytes_lt [] (y ∷ ys) = true
bytes_lt (x ∷ xs) (y ∷ ys) = elim (compare x y) [
  | Ordering.lt ↦ true
  | Ordering.eq ↦ bytes_lt xs ys
  | Ordering.gt ↦ false
]

abbrev pub bytes_le : Bytes → Bytes → Bool
bytes_le a b = not (bytes_lt b a)

unfoldable pub bytes_beq : Bytes → Bytes → Bool
bytes_beq [] [] = true
bytes_beq [] (y ∷ ys) = false
bytes_beq (x ∷ xs) [] = false
bytes_beq (x ∷ xs) (y ∷ ys) = elim (compare x y) [ Ordering.eq ↦ bytes_beq xs ys | _ ↦ false ]

pub bytes_beq_iff : (a b : Bytes) → (bytes_beq a b ≡ true) ↔ (a ≡ b)
unfolding bytes_beq
bytes_beq_iff [] [] = ground arith
bytes_beq_iff [] (y ∷ ys) = ground arith
bytes_beq_iff (x ∷ xs) [] = ground arith
bytes_beq_iff (x ∷ xs) (y ∷ ys) = ground (arith, bytes_beq_iff xs ys)

instance abbrev pub bytes_eq : HasEq Bytes
bytes_eq = record { same = bytes_beq; same_iff = bytes_beq_iff }

pub lt_irrefl : (a : Bytes) → bytes_lt a a ≡ false
unfolding bytes_lt
lt_irrefl [] = refl
lt_irrefl (x ∷ xs) = ground (arith, lt_irrefl xs)

pub lt_trans : (a b c : Bytes) → bytes_lt a b ≡ true → bytes_lt b c ≡ true → bytes_lt a c ≡ true
unfolding bytes_lt
lt_trans a b [] h k = ground arith
lt_trans a [] (z ∷ zs) h k = ground arith
lt_trans [] (y ∷ ys) (z ∷ zs) h k = refl
lt_trans (x ∷ xs) (y ∷ ys) (z ∷ zs) h k = ground (arith, lt_trans xs ys zs)

pub lt_total : (a b : Bytes) → bytes_lt a b ≡ false → bytes_lt b a ≡ false → a ≡ b
unfolding bytes_lt
lt_total [] [] h k = refl
lt_total [] (y ∷ ys) h k = ground arith
lt_total (x ∷ xs) [] h k = ground arith
lt_total (x ∷ xs) (y ∷ ys) h k = ground (arith, lt_total xs ys)

pub lt_asymm : (a b : Bytes) → bytes_lt a b ≡ true → bytes_lt b a ≡ false
unfolding bytes_lt
lt_asymm a [] h = ground arith
lt_asymm [] (y ∷ ys) h = refl
lt_asymm (x ∷ xs) (y ∷ ys) h = ground (arith, lt_asymm xs ys)

-- `a ≤ b < c` gives `a < c`.
pub le_lt_trans : (a b c : Bytes) → bytes_lt b a ≡ false → bytes_lt b c ≡ true → bytes_lt a c ≡ true
unfolding bytes_lt
le_lt_trans a b [] h k = ground arith
le_lt_trans [] b (z ∷ zs) h k = refl
le_lt_trans (x ∷ xs) [] (z ∷ zs) h k = ground arith
le_lt_trans (x ∷ xs) (y ∷ ys) (z ∷ zs) h k = ground (arith, le_lt_trans xs ys zs)

pub lt_le_trans : (a b c : Bytes) → bytes_lt a b ≡ true → bytes_lt c b ≡ false → bytes_lt a c ≡ true
unfolding bytes_lt
lt_le_trans a [] c h k = ground arith
lt_le_trans [] (y ∷ ys) [] h k = ground arith
lt_le_trans [] (y ∷ ys) (z ∷ zs) h k = refl
lt_le_trans (x ∷ xs) (y ∷ ys) [] h k = ground arith
lt_le_trans (x ∷ xs) (y ∷ ys) (z ∷ zs) h k = ground (arith, lt_le_trans xs ys zs)
