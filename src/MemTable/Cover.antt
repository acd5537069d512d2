-- ===== src/MemTable/Cover.antt =====
-- The newest range tombstone over a key, against a reading of the list of tombstones.
use apex_store.Base.{
  ℕ, ◌≤◌, max, ◌≡◌, refl, inl, inr, true, false, Option, none, some, List, [], ◌∷◌, arith, keep,
  All, Any, Bool-cases,
}
use native.Mathlib.Decide.{dec_le}
use apex_store.Base.Bytes.{Bytes}
use apex_store.Record.{RangeTombstone, covers}
use apex_store.MemTable.{newest_covering}

-- No tombstone of the list covers the key.
abbrev pub NoneCovers : Bytes → List RangeTombstone → Type 0
NoneCovers key ts = All (λ t. covers t key ≡ false) ts

-- No tombstone that covers the key is newer than `n`.
abbrev pub NoneNewer : Bytes → ℕ → List RangeTombstone → Type 0
NoneNewer key n ts = All (λ t. covers t key ≡ true → t.timestamp ≤ n) ts

-- Some tombstone that covers the key was written at `n`.
abbrev pub SomeAt : Bytes → ℕ → List RangeTombstone → Type 0
SomeAt key n ts = Any (λ t. (covers t key ≡ true) × (t.timestamp ≡ n)) ts

-- What the search for the newest covering tombstone promises of its result.
abbrev pub IsNewest : Bytes → List RangeTombstone → Option ℕ → Type 0
IsNewest key ts none = NoneCovers key ts
IsNewest key ts (some n) = SomeAt key n ts × NoneNewer key n ts

NoneNewer-NoneCovers :
    (key : Bytes) (n : ℕ) (ts : List RangeTombstone) → NoneCovers key ts → NoneNewer key n ts
NoneNewer-NoneCovers key n [] h = tt
NoneNewer-NoneCovers key n (t ∷ ts) h =
    (λ c. ground (arith, h.0, c), NoneNewer-NoneCovers key n ts h.1)

NoneNewer-le :
    (key : Bytes) (n k : ℕ) (ts : List RangeTombstone)
    → n ≤ k
    → NoneNewer key n ts
    → NoneNewer key k ts
NoneNewer-le key n k [] le h = tt
NoneNewer-le key n k (t ∷ ts) le h = (λ c. omega (arith, h.0 c), NoneNewer-le key n k ts le h.1)

SomeAt-eq :
    (key : Bytes) (n k : ℕ) (ts : List RangeTombstone) → n ≡ k → SomeAt key n ts → SomeAt key k ts
SomeAt-eq key n k ts e h = rw e at h

-- The step of the search at a tombstone that covers the key.
IsNewest-covered :
    (key : Bytes) (t : RangeTombstone) (ts : List RangeTombstone) (o : Option ℕ)
    → covers t key ≡ true
    → IsNewest key ts o
    → IsNewest key (t ∷ ts) (elim o [ none ↦ some t.timestamp | some u ↦ some (max t.timestamp u) ])
IsNewest-covered key t ts none c h =
    (inl (c, refl), (λ _. omega arith, NoneNewer-NoneCovers key t.timestamp ts h))
IsNewest-covered key t ts (some u) c h = elim (dec_le u t.timestamp) [
  | yes p ↦ (
    inl (c, omega arith),
    (λ _. omega arith, NoneNewer-le key u (max t.timestamp u) ts (omega arith) h.1),
  )
  | no p ↦ (
    inr (SomeAt-eq key u (max t.timestamp u) ts (omega arith) h.0),
    (λ _. omega arith, NoneNewer-le key u (max t.timestamp u) ts (omega arith) h.1),
  )
]

IsNewest-skip :
    (key : Bytes) (t : RangeTombstone) (ts : List RangeTombstone) (o : Option ℕ)
    → covers t key ≡ false
    → IsNewest key ts o
    → IsNewest key (t ∷ ts) o
IsNewest-skip key t ts none c h = (c, h)
IsNewest-skip key t ts (some n) c h = (inr h.0, (λ d. absurd (ground (arith, c, d)), h.1))

abbrev newer : ℕ → Option ℕ → Option ℕ
newer n o = elim o [ none ↦ some n | some u ↦ some (max n u) ]

newest-covered :
    (key : Bytes) (t : RangeTombstone) (ts : List RangeTombstone)
    → covers t key ≡ true
    → newest_covering key (t ∷ ts) ≡ newer t.timestamp (newest_covering key ts)
unfolding newest_covering
newest-covered key t ts c = rw (c, keep)

newest-skip :
    (key : Bytes) (t : RangeTombstone) (ts : List RangeTombstone)
    → covers t key ≡ false
    → newest_covering key (t ∷ ts) ≡ newest_covering key ts
unfolding newest_covering
newest-skip key t ts c = rw (c, keep)

-- The search returns the timestamp of a tombstone that covers the key, none that covers it being
-- newer, and returns nothing only where no tombstone covers the key.
pub newest_covering-IsNewest :
    (key : Bytes) (ts : List RangeTombstone) → IsNewest key ts (newest_covering key ts)
newest_covering-IsNewest key [] = unfold newest_covering in tt
newest_covering-IsNewest key (t ∷ ts) = elim (Bool-cases (covers t key)) [
  | inl c ↦
      rw (newest-covered key t ts c)
        (IsNewest-covered key t ts (newest_covering key ts) c (newest_covering-IsNewest key ts))
  | inr c ↦
      rw (newest-skip key t ts c)
        (IsNewest-skip key t ts (newest_covering key ts) c (newest_covering-IsNewest key ts))
]
