-- ===== src/Wal/LastIndex.antt =====
-- The last index of a column family and a key, as `deduplicate_records` of storage/wal.rs finds it.
use apex_store.Base.{
  ℕ, suc, ◌≤◌, String, ◌≡◌, refl, sym, ap, ◌∙◌, Bool, true, false, Option, none, some, List, [],
  ◌∷◌, if◌then◌else◌, ◌==◌, nat_eq, string_eq, pair_eq, Bool-cases, inl, inr, arith, Option-cases,
  pair_beq_iff,
}
use apex_store.Base.Bytes.{Bytes, bytes_eq}
use apex_store.Base.Dict
use apex_store.Base.Dict.{Dict, get-insert}
use apex_store.Merge.Collect.{or_else}
use apex_store.Record.{LogRecord, is_range_tombstone}
use apex_store.Engine.Recover.{last_record, answer_in}
use apex_store.Wal.Dedup.{Slot, slot_of, last_occurrence, is_at}

-- The last index of a slot among the point records.
abbrev pub here : Slot → ℕ → LogRecord → Option ℕ
here s i r = if is_range_tombstone r then none else if slot_of r == s then some i else none

abbrev pub last_index : Slot → ℕ → List LogRecord → Option ℕ
last_index s i [] = none
last_index s i (r ∷ rs) = or_else (last_index s (suc i) rs) (here s i r)

pub or_else_assoc {ℓ} :
    {V : Type ℓ} (a b c : Option V) → or_else (or_else a b) c ≡ or_else a (or_else b c)
or_else_assoc none b c = refl
or_else_assoc (some a) b c = refl

pub get-here :
    (s : Slot) (i : ℕ) (r : LogRecord) (d : Dict Slot ℕ)
    → Dict.get s (if is_range_tombstone r then d else Dict.insert (slot_of r) i d)
      ≡ or_else (here s i r) (Dict.get s d)
get-here s i r d = elim (Bool-cases (is_range_tombstone r)) [
  | inl range ↦ rw range refl
  | inr point ↦ rw point (get-insert (slot_of r) s i d ∙ split (slot_of r == s) (Dict.get s d))
]
  where
    split :
        (b : Bool) (o : Option ℕ)
        → (if b then some i else o) ≡ or_else (if b then some i else none) o
    split true o = refl
    split false o = refl

pub get-last_occurrence :
    (s : Slot) (i : ℕ) (rs : List LogRecord) (d : Dict Slot ℕ)
    → Dict.get s (last_occurrence i rs d) ≡ or_else (last_index s i rs) (Dict.get s d)
unfolding last_occurrence
get-last_occurrence s i [] d = refl
get-last_occurrence s i (r ∷ rs) d =
    get-last_occurrence s (suc i) rs
      (if is_range_tombstone r then d else Dict.insert (slot_of r) i d)
    ∙ ap (or_else (last_index s (suc i) rs)) (get-here s i r d)
    ∙ sym (or_else_assoc (last_index s (suc i) rs) (here s i r) (Dict.get s d))

-- Indices from `n` on.
abbrev pub From : ℕ → Option ℕ → Type 0
From n none = Unit
From n (some j) = n ≤ j

pub or_else-From : (n : ℕ) (a b : Option ℕ) → From (suc n) a → From n b → From n (or_else a b)
or_else-From n none b h k = k
or_else-From n (some a) b h k = omega (arith, h)

pub here-From : (s : Slot) (i : ℕ) (r : LogRecord) → From i (here s i r)
here-From s i r = elim (Bool-cases (is_range_tombstone r)) [
  | inl range ↦ rw range tt
  | inr point ↦ rw point (elim (Bool-cases (slot_of r == s)) [
    | inl same ↦ rw same (omega arith)
    | inr other ↦ rw other tt
  ])
]

pub last_index-From : (s : Slot) (i : ℕ) (rs : List LogRecord) → From i (last_index s i rs)
last_index-From s i [] = tt
last_index-From s i (r ∷ rs) =
    or_else-From i (last_index s (suc i) rs) (here s i r) (last_index-From s (suc i) rs)
      (here-From s i r)

-- A point record is dropped where a later one has its slot.
pub is_at-later :
    (i : ℕ) (o : Option ℕ) (p : Option ℕ)
    → From (suc i) o
    → is_at i (or_else o (or_else (some i) p)) ≡ true
    → o ≡ none
is_at-later i none p h e = refl
is_at-later i (some j) p h e = ground (arith, h, e)

pub answer_in-none :
    (cf : String) (key : Bytes) (i : ℕ) (r : LogRecord)
    → answer_in cf r key ≡ none
    → here (cf, key) i r ≡ none
answer_in-none cf key i r h = ground (arith, h)

pub or_else-none : {V : Type 0} (a b : Option V) → or_else a b ≡ none → (a ≡ none) × (b ≡ none)
or_else-none none b h = (refl, h)
or_else-none (some v) b h = cc h

pub last_record-none :
    (cf : String) (key : Bytes) (i : ℕ) (rs : List LogRecord)
    → last_record cf key rs ≡ none
    → last_index (cf, key) i rs ≡ none
last_record-none cf key i [] h = refl
last_record-none cf key i (r ∷ rs) h =
    ap (λ (o : Option ℕ). or_else o (here (cf, key) i r))
      (last_record-none cf key (suc i) rs parts.0)
    ∙ answer_in-none cf key i r parts.1
  where
    parts : (last_record cf key rs ≡ none) × (answer_in cf r key ≡ none)
    parts = or_else-none (last_record cf key rs) (answer_in cf r key) h

pub answer_in-slot :
    (cf : String) (key : Bytes) (r v : LogRecord)
    → answer_in cf r key ≡ some v
    → slot_of r ≡ (cf, key)
answer_in-slot cf key r v h = (pair_beq_iff (slot_of r) (cf, key)).0 (ground (arith, h))

-- A record whose slot has a later point record answers nothing new.
pub last_record-absorbs :
    (cf : String) (key : Bytes) (i j : ℕ) (r : LogRecord) (rs : List LogRecord)
    → last_index (slot_of r) i rs ≡ some j
    → or_else (last_record cf key rs) (answer_in cf r key) ≡ last_record cf key rs
last_record-absorbs cf key i j r rs h = elim (Option-cases (last_record cf key rs)) [
  | inr (v, found) ↦ rw found refl
  | inl missing ↦ rw missing (elim (Option-cases (answer_in cf r key)) [
    | inl quiet ↦ quiet
    | inr (v, answers) ↦ cc (
      h,
      ap (λ (s : Slot). last_index s i rs) (answer_in-slot cf key r v answers),
      last_record-none cf key i rs missing,
    )
  ])
]
