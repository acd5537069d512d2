-- ===== src/Merge/Heap.antt =====
-- What a pop of the heap of core/iterators.rs returns and what it leaves.
use apex_store.Base.{
  ℕ, suc, ◌+◌, ◌≤◌, ◌≡◌, ◌≢◌, refl, sym, ap, ◌∙◌, true, false, Option, none, some, List, [], ◌∷◌,
  arith, All, length, Bool-cases, inl, inr,
}
use apex_store.Base.Bytes.{
  Bytes, bytes_lt, bytes_eq, bytes_beq_iff, lt_irrefl, lt_total, lt_asymm, le_lt_trans,
}
use apex_store.Base.Sorted.{Above, IsAscending}
use apex_store.Merge.{Entry, before, choose, pop, steps_left}
use apex_store.Merge.Find.{
  tagged, entry_get, better, find, better_swap, Ordered, IndexAtLeast, entry_get-Past,
  entry_get_self, IndexAtLeast-tagged, IndexAtLeast-better, better-IndexAtLeast,
}

module _ {ℓ} {V : Type ℓ} where
  -- `heap` is `e` and the others, in some order.
  pub data Picks : List (Entry V) → Entry V → List (Entry V) → Type ℓ where
    here : (e : Entry V) (heap : List (Entry V)) → Picks (e ∷ heap) e heap
    there :
        (g : Entry V) {heap : List (Entry V)} {e : Entry V} {others : List (Entry V)}
        → Picks heap e others
        → Picks (g ∷ heap) e (g ∷ others)

  module _ (P : Entry V → Type 0) where
    pub Picks-All :
        {heap : List (Entry V)} {e : Entry V} {others : List (Entry V)}
        → Picks heap e others
        → All P heap
        → P e × All P others
    Picks-All (here e heap) a = a
    Picks-All (there g p) a = let (x, y) = Picks-All p a.1 in (x, (a.0, y))

    pub All-Picks :
        {heap : List (Entry V)} {e : Entry V} {others : List (Entry V)}
        → Picks heap e others
        → P e
        → All P others
        → All P heap
    All-Picks (here e heap) x a = (x, a)
    All-Picks (there g p) x a = (a.0, All-Picks p x a.1)

  -- No entry of the heap has the index.
  abbrev pub Fresh : ℕ → List (Entry V) → Type 0
  Fresh i heap = All (λ e. e.index ≢ i) heap

  abbrev pub Distinct : List (Entry V) → Type 0
  Distinct [] = Unit
  Distinct (e ∷ heap) = Fresh e.index heap × Distinct heap

  pub Picks-Distinct :
      {heap : List (Entry V)} {e : Entry V} {others : List (Entry V)}
      → Picks heap e others
      → Distinct heap
      → Fresh e.index others × Distinct others
  Picks-Distinct (here e heap) d = d
  Picks-Distinct (there g {e = e} p) d =
      let (ne, fresh) = Picks-All (λ f. f.index ≢ g.index) p d.0 in
      let (old, distinct) = Picks-Distinct p d.1 in ((λ q. ne (sym q), old), (fresh, distinct))

  pub Picks-steps :
      {heap : List (Entry V)} {e : Entry V} {others : List (Entry V)}
      → Picks heap e others
      → steps_left heap ≡ suc (length e.rest) + steps_left others
  unfolding steps_left
  Picks-steps (here e heap) = refl
  Picks-steps (there g p) = omega (arith, Picks-steps p)

  pub Picks-find :
      (k : Bytes) {heap : List (Entry V)} {e : Entry V} {others : List (Entry V)}
      → Picks heap e others
      → Distinct heap
      → find k heap ≡ better (tagged e.index (entry_get k e)) (find k others)
  unfolding find
  Picks-find k (here e heap) d = refl
  Picks-find k (there g {e = e} {others = others} p) d =
      let (ne, fresh) = Picks-All (λ f. f.index ≢ g.index) p d.0 in
      ap (better (tagged g.index (entry_get k g))) (Picks-find k p d.1)
      ∙ better_swap g.index e.index (entry_get k g) (entry_get k e) (find k others)
          (λ q. ne (sym q))

  -- The entry comes first, before all of the heap.
  abbrev pub First : Entry V → List (Entry V) → Type 0
  First e heap = All (λ f. before f e ≡ false) heap

  before_asymm : (a b : Entry V) → before a b ≡ true → before b a ≡ false
  unfolding before
  before_asymm a b h = ground (
    arith,
    lt_asymm a.key b.key,
    bytes_beq_iff a.key b.key,
    bytes_beq_iff b.key a.key,
    lt_irrefl a.key,
  )

  -- `e` not after `f`, and `f` not after `g`.
  not_before_trans :
      (e f g : Entry V) → before f e ≡ false → before g f ≡ false → before g e ≡ false
  unfolding before
  not_before_trans e f g h k = ground (
    arith,
    le_lt_trans f.key g.key e.key,
    lt_total f.key e.key,
    bytes_beq_iff g.key e.key,
    bytes_beq_iff f.key e.key,
    bytes_beq_iff g.key f.key,
  )

  First-trans :
      (e f : Entry V) (heap : List (Entry V)) → before f e ≡ false → First f heap → First e heap
  First-trans e f [] h k = tt
  First-trans e f (g ∷ heap) h k = (not_before_trans e f g h k.0, First-trans e f heap h k.1)

  pub record IsPop (heap : List (Entry V)) (r : Entry V × List (Entry V)) : Type ℓ where
    pub picks : Picks heap r.0 r.1
    pub first : First r.0 r.1

  choose-IsPop :
      (e : Entry V) (heap : List (Entry V)) (f : Entry V) (others : List (Entry V))
      → IsPop heap (f, others)
      → IsPop (e ∷ heap) (choose e heap (some (f, others)))
  unfolding choose
  choose-IsPop e heap f others h = elim (Bool-cases (before e f)) [
    | inl sooner ↦
        rw (sooner, choose)
          record {
            picks = here e heap;
            first =
                All-Picks (λ g. before g e ≡ false) h.picks (before_asymm e f sooner)
                  (First-trans e f others (before_asymm e f sooner) h.first);
          }
    | inr later ↦ rw (later, choose) record { picks = there e h.picks; first = (later, h.first) }
  ]

  pop-step :
      (e : Entry V) (heap : List (Entry V)) → pop (e ∷ heap) ≡ some (choose e heap (pop heap))
  unfolding pop
  pop-step e heap = refl

  -- A heap with an entry can be popped: the entry that comes first, and the others.
  pub pop-cons :
      (e : Entry V) (heap : List (Entry V))
      → (r : Entry V × List (Entry V)) × (pop (e ∷ heap) ≡ some r) × IsPop (e ∷ heap) r
  pop-cons e [] = ((e, []), unfold pop in refl, record { picks = here e []; first = tt })
  pop-cons e (g ∷ heap) =
      let (r, popped, is_pop) = pop-cons g heap in
      (
        choose e (g ∷ heap) (some r),
        pop-step e (g ∷ heap)
            ∙ ap (λ (o : Option (Entry V × List (Entry V))). some (choose e (g ∷ heap) o)) popped,
        choose-IsPop e (g ∷ heap) r.0 r.1 is_pop,
      )

  pub pop-nil : pop {V = V} [] ≡ none
  unfolding pop
  pop-nil = refl

  pub before-key : (f e : Entry V) → before f e ≡ false → bytes_lt f.key e.key ≡ false
  unfolding before
  before-key f e h = ground arith

  before-index : (f e : Entry V) → before f e ≡ false → f.key ≡ e.key → e.index ≤ f.index
  unfolding before
  before-index f e h q = ground (arith, bytes_beq_iff f.key e.key)

  entry-IndexAtLeast :
      (e f : Entry V)
      → before f e ≡ false
      → Above f.key f.rest
      → IndexAtLeast e.index (tagged f.index (entry_get e.key f))
  entry-IndexAtLeast e f h a = elim (Bool-cases (bytes_lt e.key f.key)) [
    | inl past ↦ rw (entry_get-Past e.key f past a) tt
    | inr same ↦
        IndexAtLeast-tagged e.index f.index (entry_get e.key f)
          (before-index f e h (lt_total f.key e.key (before-key f e h) same))
  ]

  pub First-IndexAtLeast :
      (e : Entry V) (heap : List (Entry V))
      → First e heap
      → Ordered heap
      → IndexAtLeast e.index (find e.key heap)
  unfolding find
  First-IndexAtLeast e [] h o = tt
  First-IndexAtLeast e (f ∷ heap) h o =
      IndexAtLeast-better e.index (tagged f.index (entry_get e.key f)) (find e.key heap)
        (entry-IndexAtLeast e f h.0 o.0.0) (First-IndexAtLeast e heap h.1 o.1)

  -- The entry that comes first has the version of its key that the heap holds.
  pub find-First :
      (e : Entry V) (heap others : List (Entry V))
      → Picks heap e others
      → First e others
      → Distinct heap
      → Ordered heap
      → find e.key heap ≡ some (e.index, e.item)
  find-First e heap others p h d o =
      Picks-find e.key p d
      ∙ ap (λ (x : Option V). better (tagged e.index x) (find e.key others)) (entry_get_self e)
      ∙ better-IndexAtLeast e.index e.item (find e.key others) (
          First-IndexAtLeast e others h
            (Picks-All (λ f. Above f.key f.rest × IsAscending f.rest) p o).1)
