-- ===== src/Base/Sorted.antt =====
-- `sort_by(|a, b| a.0.cmp(&b.0))` on pairs, and lists of pairs in ascending order of their keys.
use apex_store.Base.Tests.{◌==◌, if◌then◌else◌, Bool-cases}
use apex_store.Base.Lists.{All}
use apex_store.Base.Bytes.{
  Bytes, bytes_lt, bytes_eq, bytes_beq_iff, lt_irrefl, lt_trans, lt_total, lt_asymm,
}
use apex_store.Base.Dict.{Dict, get, get-insert, insert}
use mathlib.Core.Path.{◌≡◌, refl, ap, ◌∙◌}
use mathlib.Core.Logic.{inl, inr}
use mathlib.Core.Bool.{true}
use mathlib.Core.Option.{none, some}
use mathlib.Core.List.{[], ◌∷◌}
use native.Mathlib.Omega.{arith}

module _ {ℓ} {V : Type ℓ} where
  unfoldable pub insert_sorted : Bytes → V → Dict Bytes V → Dict Bytes V
  insert_sorted k v [] = (k, v) ∷ []
  insert_sorted k v ((j, w) ∷ m) =
      if bytes_lt j k then (j, w) ∷ insert_sorted k v m else (k, v) ∷ (j, w) ∷ m

  unfoldable pub sort_by_key : Dict Bytes V → Dict Bytes V
  unfolding insert_sorted
  sort_by_key [] = []
  sort_by_key ((k, v) ∷ m) = insert_sorted k v (sort_by_key m)

  -- Every key of the list is past `k`.
  abbrev pub Above : Bytes → Dict Bytes V → Type 0
  Above k m = All (λ p. bytes_lt k p.0 ≡ true) m

  -- The keys are in strictly ascending order.
  abbrev pub IsAscending : Dict Bytes V → Type 0
  IsAscending [] = Unit
  IsAscending ((k, v) ∷ m) = Above k m × IsAscending m

  -- No key stands twice.
  abbrev pub Unique : Dict Bytes V → Type ℓ
  Unique [] = Unit
  Unique ((k, v) ∷ m) = (get k m ≡ none) × Unique m

  pub insert-Unique : (k : Bytes) (v : V) (m : Dict Bytes V) → Unique m → Unique (insert k v m)
  unfolding insert get
  insert-Unique k v [] u = (refl, tt)
  insert-Unique k v ((j, w) ∷ m) u =
      ground
        (arith, insert-Unique k v m u.1, get-insert k j v m, bytes_beq_iff j k, bytes_beq_iff k j)

  pub get-insert_sorted :
      (k j : Bytes) (v : V) (m : Dict Bytes V)
      → get j (insert_sorted k v m) ≡ (if k == j then some v else get j m)
  unfolding get insert_sorted
  get-insert_sorted k j v [] = refl
  get-insert_sorted k j v ((i, w) ∷ m) =
      ground (arith, bytes_beq_iff k j, bytes_beq_iff i j, lt_irrefl k, get-insert_sorted k j v m)

  -- Sorting keeps what each key maps to.
  pub get-sort_by_key : (j : Bytes) (m : Dict Bytes V) → get j (sort_by_key m) ≡ get j m
  unfolding sort_by_key get
  get-sort_by_key j [] = refl
  get-sort_by_key j ((k, v) ∷ m) =
      ground (arith, get-insert_sorted k j v (sort_by_key m), get-sort_by_key j m)

  insert_sorted-Above :
      (b k : Bytes) (v : V) (m : Dict Bytes V)
      → bytes_lt b k ≡ true
      → Above b m
      → Above b (insert_sorted k v m)
  unfolding insert_sorted
  insert_sorted-Above b k v [] h a = (h, tt)
  insert_sorted-Above b k v ((j, w) ∷ m) h a = ground (arith, insert_sorted-Above b k v m h a.1)

  pub Above-trans : (b k : Bytes) (m : Dict Bytes V) → bytes_lt b k ≡ true → Above k m → Above b m
  Above-trans b k [] h a = tt
  Above-trans b k ((j, w) ∷ m) h a = (lt_trans b k j h a.0, Above-trans b k m h a.1)

  insert_sorted-IsAscending :
      (k : Bytes) (v : V) (m : Dict Bytes V)
      → get k m ≡ none
      → IsAscending m
      → IsAscending (insert_sorted k v m)
  unfolding insert_sorted get
  insert_sorted-IsAscending k v [] n s = (tt, tt)
  insert_sorted-IsAscending k v ((j, w) ∷ m) n s = ground (
    arith,
    insert_sorted-Above j k v m,
    insert_sorted-IsAscending k v m,
    bytes_beq_iff j k,
    lt_total k j,
    Above-trans k j m,
  )

  -- Sorting a map's pairs gives strictly ascending keys.
  pub sort_by_key-IsAscending : (m : Dict Bytes V) → Unique m → IsAscending (sort_by_key m)
  unfolding sort_by_key
  sort_by_key-IsAscending [] u = tt
  sort_by_key-IsAscending ((k, v) ∷ m) u =
      insert_sorted-IsAscending k v (sort_by_key m) (ground (arith, get-sort_by_key k m))
        (sort_by_key-IsAscending m u.1)

  insert_sorted-first :
      (k : Bytes) (v : V) (m : Dict Bytes V) → Above k m → insert_sorted k v m ≡ (k, v) ∷ m
  unfolding insert_sorted
  insert_sorted-first k v [] a = refl
  insert_sorted-first k v ((j, w) ∷ m) a = rw (lt_asymm k j a.0) refl

  -- Sorting a sorted list does nothing.
  pub sort_by_key_again : (m : Dict Bytes V) → IsAscending m → sort_by_key m ≡ m
  unfolding sort_by_key
  sort_by_key_again [] a = refl
  sort_by_key_again ((k, v) ∷ m) a =
      ap (insert_sorted k v) (sort_by_key_again m a.1) ∙ insert_sorted-first k v m a.0

  insert_sorted-All {κ} :
      (P : Bytes × V → Type κ) (k : Bytes) (v : V) (m : Dict Bytes V)
      → P (k, v)
      → All P m
      → All P (insert_sorted k v m)
  unfolding insert_sorted
  insert_sorted-All P k v [] p a = (p, tt)
  insert_sorted-All P k v ((j, w) ∷ m) p a = elim (Bool-cases (bytes_lt j k)) [
    | inl before ↦ rw before (a.0, insert_sorted-All P k v m p a.1)
    | inr here ↦ rw here (p, a)
  ]

  pub sort_by_key-All {κ} :
      (P : Bytes × V → Type κ) (m : Dict Bytes V) → All P m → All P (sort_by_key m)
  unfolding sort_by_key
  sort_by_key-All P [] a = tt
  sort_by_key-All P ((k, v) ∷ m) a =
      insert_sorted-All P k v (sort_by_key m) a.0 (sort_by_key-All P m a.1)
