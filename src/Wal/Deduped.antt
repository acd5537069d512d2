-- ===== src/Wal/Deduped.antt =====
-- What the deduplication of storage/wal.rs keeps: the last record of every column family and key.
use apex_store.Base.{
  ℕ, suc, String, ◌≡◌, refl, sym, ap, ◌∙◌, Bool, true, false, Option, none, some, List, [], ◌∷◌,
  if◌then◌else◌, nat_eq, string_eq, pair_eq, Bool-cases, inl, inr, arith, Option-cases, subst,
  pair_beq_iff,
}
use apex_store.Base.Bytes.{Bytes, bytes_eq}
use apex_store.Base.Dict
use apex_store.Base.Dict.{Dict, get-insert}
use apex_store.Merge.Collect.{or_else}
use apex_store.Record.{LogRecord, is_range_tombstone}
use apex_store.Engine.Recover.{last_record, answer_in}
use apex_store.Wal.Dedup.{Slot, slot_of, last_occurrence, is_at, is_kept, kept, deduplicate_records}
use apex_store.Wal.LastIndex.{
  here, last_index, or_else_assoc, get-last_occurrence, last_index-From, is_at-later, or_else-none,
  last_record-absorbs,
}

-- Does the map hold what the loop finds in the rest of the records?
abbrev Holds : Dict Slot ℕ → ℕ → List LogRecord → (Slot → Option ℕ) → Type 0
Holds d i rs before = (s : Slot) → Dict.get s d ≡ or_else (last_index s i rs) (before s)

Holds-tail :
    (d : Dict Slot ℕ) (i : ℕ) (r : LogRecord) (rs : List LogRecord) (before : Slot → Option ℕ)
    → Holds d i (r ∷ rs) before
    → Holds d (suc i) rs (λ s. or_else (here s i r) (before s))
Holds-tail d i r rs before h s =
    h s ∙ or_else_assoc (last_index s (suc i) rs) (here s i r) (before s)

here_self : (i : ℕ) (r : LogRecord) → is_range_tombstone r ≡ false → here (slot_of r) i r ≡ some i
here_self i r point = rw (point, (pair_beq_iff (slot_of r) (slot_of r)).1 refl) refl

get_self :
    (d : Dict Slot ℕ) (i : ℕ) (r : LogRecord) (rs : List LogRecord) (before : Slot → Option ℕ)
    → Holds d i (r ∷ rs) before
    → is_range_tombstone r ≡ false
    → Dict.get (slot_of r) d
      ≡ or_else (or_else (last_index (slot_of r) (suc i) rs) (some i)) (before (slot_of r))
get_self d i r rs before h point =
    h (slot_of r)
    ∙ ap
        (λ (o : Option ℕ).
          or_else (or_else (last_index (slot_of r) (suc i) rs) o) (before (slot_of r)))
        (here_self i r point)

-- The record that is dropped is a point record with a later one of its slot.
dropped :
    (d : Dict Slot ℕ) (i : ℕ) (r : LogRecord) (rs : List LogRecord) (before : Slot → Option ℕ)
    → Holds d i (r ∷ rs) before
    → is_kept d i r ≡ false
    → (j : ℕ) × (last_index (slot_of r) (suc i) rs ≡ some j)
unfolding is_kept
dropped d i r rs before h e = elim (Option-cases (last_index (slot_of r) (suc i) rs)) [
  | inr (j, later) ↦ (j, later)
  | inl last ↦ ground (arith, e, self last)
]
  where
    point : is_range_tombstone r ≡ false
    point = ground (arith, e)

    self : last_index (slot_of r) (suc i) rs ≡ none → Dict.get (slot_of r) d ≡ some i
    self last =
        get_self d i r rs before h point
        ∙ ap (λ (o : Option ℕ). or_else (or_else o (some i)) (before (slot_of r))) last

-- The point record that is kept has no later one of its slot.
retained :
    (d : Dict Slot ℕ) (i : ℕ) (r : LogRecord) (rs : List LogRecord) (before : Slot → Option ℕ)
    → Holds d i (r ∷ rs) before
    → is_kept d i r ≡ true
    → is_range_tombstone r ≡ false
    → last_index (slot_of r) (suc i) rs ≡ none
unfolding is_kept
retained d i r rs before h e point =
    is_at-later i (last_index (slot_of r) (suc i) rs) (before (slot_of r))
      (last_index-From (slot_of r) (suc i) rs)
      (ap (is_at i) (
          sym (or_else_assoc (last_index (slot_of r) (suc i) rs) (some i) (before (slot_of r)))
          ∙ sym (get_self d i r rs before h point))
        ∙ at)
  where
    at : is_at i (Dict.get (slot_of r) d) ≡ true
    at = ground (arith, e, point)

last_record-kept :
    (cf : String) (key : Bytes) (d : Dict Slot ℕ) (i : ℕ) (rs : List LogRecord)
    (before : Slot → Option ℕ)
    → Holds d i rs before
    → last_record cf key (kept d i rs) ≡ last_record cf key rs
unfolding kept
last_record-kept cf key d i [] before h = refl
last_record-kept cf key d i (r ∷ rs) before h =
    let rec =
      last_record-kept cf key d (suc i) rs (λ s. or_else (here s i r) (before s))
        (Holds-tail d i r rs before h) in
    elim (Bool-cases (is_kept d i r)) [
      | inl stays ↦
          ap
            (λ (b : Bool).
              last_record cf key (if b then r ∷ kept d (suc i) rs else kept d (suc i) rs))
            stays
          ∙ ap (λ (o : Option LogRecord). or_else o (answer_in cf r key)) rec
      | inr goes ↦
          ap
            (λ (b : Bool).
              last_record cf key (if b then r ∷ kept d (suc i) rs else kept d (suc i) rs))
            goes
          ∙ rec
          ∙ sym (
              last_record-absorbs cf key (suc i) (dropped d i r rs before h goes).0 r rs
                (dropped d i r rs before h goes).1)
    ]

-- No later record has the slot of a point record.
abbrev pub OncePerSlot : List LogRecord → Type 0
OncePerSlot [] = Unit
OncePerSlot (r ∷ rs) =
    (is_range_tombstone r ≡ false → last_index (slot_of r) 0 rs ≡ none) × OncePerSlot rs

last_index-shift :
    (s : Slot) (i j : ℕ) (rs : List LogRecord) → last_index s i rs ≡ none → last_index s j rs ≡ none
last_index-shift s i j [] h = refl
last_index-shift s i j (r ∷ rs) h =
    ap (λ (o : Option ℕ). or_else o (here s j r)) (last_index-shift s (suc i) (suc j) rs parts.0)
    ∙ ground (arith, parts.1)
  where
    parts : (last_index s (suc i) rs ≡ none) × (here s i r ≡ none)
    parts = or_else-none (last_index s (suc i) rs) (here s i r) h

last_index-kept :
    (s : Slot) (d : Dict Slot ℕ) (i j : ℕ) (rs : List LogRecord)
    → last_index s i rs ≡ none
    → last_index s j (kept d i rs) ≡ none
unfolding kept
last_index-kept s d i j [] h = refl
last_index-kept s d i j (r ∷ rs) h = elim (Bool-cases (is_kept d i r)) [
  | inl stays ↦
      ap (λ (b : Bool). last_index s j (if b then r ∷ kept d (suc i) rs else kept d (suc i) rs))
        stays
      ∙ ap (λ (o : Option ℕ). or_else o (here s j r))
          (last_index-kept s d (suc i) (suc j) rs parts.0)
      ∙ ground (arith, parts.1)
  | inr goes ↦
      ap (λ (b : Bool). last_index s j (if b then r ∷ kept d (suc i) rs else kept d (suc i) rs))
        goes
      ∙ last_index-kept s d (suc i) j rs parts.0
]
  where
    parts : (last_index s (suc i) rs ≡ none) × (here s i r ≡ none)
    parts = or_else-none (last_index s (suc i) rs) (here s i r) h

kept-OncePerSlot :
    (d : Dict Slot ℕ) (i : ℕ) (rs : List LogRecord) (before : Slot → Option ℕ)
    → Holds d i rs before
    → OncePerSlot (kept d i rs)
unfolding kept
kept-OncePerSlot d i [] before h = tt
kept-OncePerSlot d i (r ∷ rs) before h =
    let rec =
      kept-OncePerSlot d (suc i) rs (λ s. or_else (here s i r) (before s))
        (Holds-tail d i r rs before h) in
    elim (Bool-cases (is_kept d i r)) [
      | inl stays ↦
          subst (λ (b : Bool). OncePerSlot (if b then r ∷ kept d (suc i) rs else kept d (suc i) rs))
            (sym stays)
            (
              (λ point.
                  last_index-kept (slot_of r) d (suc i) 0 rs
                    (retained d i r rs before h stays point)),
              rec,
            )
      | inr goes ↦
          subst (λ (b : Bool). OncePerSlot (if b then r ∷ kept d (suc i) rs else kept d (suc i) rs))
            (sym goes) rec
    ]

initial : (rs : List LogRecord) → Holds (last_occurrence 0 rs []) 0 rs (λ s. none)
unfolding Dict.get
initial rs s = get-last_occurrence s 0 rs []

-- Deduplication of any records keeps, for every column family and key, the last record as it is, and
-- no point record that a later kept point record of its column family and key follows.
pub last_record-deduplicate :
    (rs : List LogRecord)
    → ((cf : String) (key : Bytes)
        → last_record cf key (deduplicate_records rs) ≡ last_record cf key rs)
      × OncePerSlot (deduplicate_records rs)
unfolding deduplicate_records
last_record-deduplicate rs = (
  (λ cf key. last_record-kept cf key (last_occurrence 0 rs []) 0 rs (λ s. none) (initial rs)),
  kept-OncePerSlot (last_occurrence 0 rs []) 0 rs (λ s. none) (initial rs),
)
