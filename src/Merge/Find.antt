-- ===== src/Merge/Find.antt =====
-- The version of a key that a heap of core/iterators.rs holds: that of the entry with the lowest
-- index among those that have the key.
use apex_store.Base.{
  ℕ, ◌≤◌, ◌≡◌, ◌≢◌, refl, true, false, Option, none, some, List, [], ◌∷◌, arith, All, ltb, inl, inr,
  Bool-cases, if◌then◌else◌,
}
use apex_store.Base.Bytes.{Bytes, bytes_lt, bytes_eq, bytes_beq_iff, lt_irrefl}
use apex_store.Base.Dict
use apex_store.Base.Dict.{Dict}
use apex_store.Base.Sorted.{Above, IsAscending, Above-trans}
use apex_store.Merge.{Entry}

module _ {ℓ} {V : Type ℓ} where
  abbrev pub tagged : ℕ → Option V → Option (ℕ × V)
  tagged i none = none
  tagged i (some v) = some (i, v)

  abbrev pub untagged : Option (ℕ × V) → Option V
  untagged none = none
  untagged (some (i, v)) = some v

  -- What the entry has for the key.
  abbrev pub entry_get : Bytes → Entry V → Option V
  entry_get k e = Dict.get k ((e.key, e.item) ∷ e.rest)

  abbrev pub better : Option (ℕ × V) → Option (ℕ × V) → Option (ℕ × V)
  better none y = y
  better (some x) none = some x
  better (some (i, v)) (some (j, w)) = if ltb j i then some (j, w) else some (i, v)

  unfoldable pub find : Bytes → List (Entry V) → Option (ℕ × V)
  find k [] = none
  find k (e ∷ heap) = better (tagged e.index (entry_get k e)) (find k heap)

  pub better_swap :
      (i j : ℕ) (a b : Option V) (c : Option (ℕ × V))
      → i ≢ j
      → better (tagged i a) (better (tagged j b) c) ≡ better (tagged j b) (better (tagged i a) c)
  better_swap i j none b c h = refl
  better_swap i j (some v) none c h = refl
  better_swap i j (some v) (some w) none h = ground arith
  better_swap i j (some v) (some w) (some (k, x)) h = ground arith

  -- All current keys are at least `c`, or past it.
  abbrev pub AtLeast : Bytes → List (Entry V) → Type 0
  AtLeast c heap = All (λ e. bytes_lt e.key c ≡ false) heap

  abbrev pub Past : Bytes → List (Entry V) → Type 0
  Past c heap = All (λ e. bytes_lt c e.key ≡ true) heap

  -- Every entry has its pairs in ascending order.
  abbrev pub Ordered : List (Entry V) → Type 0
  Ordered heap = All (λ e. Above e.key e.rest × IsAscending e.rest) heap

  pub get-Above : (k : Bytes) (m : Dict Bytes V) → Above k m → Dict.get k m ≡ none
  unfolding Dict.get
  get-Above k [] a = refl
  get-Above k ((j, v) ∷ m) a = ground (arith, bytes_beq_iff j k, lt_irrefl k, get-Above k m a.1)

  pub entry_get-Past :
      (k : Bytes) (e : Entry V)
      → bytes_lt k e.key ≡ true
      → Above e.key e.rest
      → entry_get k e ≡ none
  entry_get-Past k e h a =
      get-Above k ((e.key, e.item) ∷ e.rest) (h, Above-trans k e.key e.rest h a)

  pub entry_get_self : (e : Entry V) → entry_get e.key e ≡ some e.item
  unfolding Dict.get
  entry_get_self e = ground (arith, bytes_beq_iff e.key e.key)

  pub entry_get-ne : (k : Bytes) (e : Entry V) → k ≢ e.key → entry_get k e ≡ Dict.get k e.rest
  unfolding Dict.get
  entry_get-ne k e h = ground (arith, bytes_beq_iff e.key k)

  -- A key that all entries are past is in none of them.
  pub find-Past :
      (k : Bytes) (heap : List (Entry V)) → Past k heap → Ordered heap → find k heap ≡ none
  unfolding find
  find-Past k [] h o = refl
  find-Past k (e ∷ heap) h o = rw (entry_get-Past k e h.0 o.0.0, find-Past k heap h.1 o.1)

  abbrev pub IndexAtLeast : ℕ → Option (ℕ × V) → Type 0
  IndexAtLeast i none = Unit
  IndexAtLeast i (some p) = i ≤ p.0

  pub better-IndexAtLeast :
      (i : ℕ) (v : V) (o : Option (ℕ × V)) → IndexAtLeast i o → better (some (i, v)) o ≡ some (i, v)
  better-IndexAtLeast i v none h = refl
  better-IndexAtLeast i v (some (j, w)) h = ground arith

  pub IndexAtLeast-tagged : (i j : ℕ) (o : Option V) → i ≤ j → IndexAtLeast i (tagged j o)
  IndexAtLeast-tagged i j none h = tt
  IndexAtLeast-tagged i j (some v) h = h

  pub IndexAtLeast-better :
      (i : ℕ) (a b : Option (ℕ × V))
      → IndexAtLeast i a
      → IndexAtLeast i b
      → IndexAtLeast i (better a b)
  IndexAtLeast-better i none b h k = k
  IndexAtLeast-better i (some x) none h k = h
  IndexAtLeast-better i (some (j, v)) (some (m, w)) h k = elim (Bool-cases (ltb m j)) [
    | inl e ↦ rw e k
    | inr e ↦ rw e h
  ]
