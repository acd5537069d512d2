-- ===== src/Merge/Collect.antt =====
-- A whole walk of the `MergeIterator` of core/iterators.rs, against a reference definition.
use apex_store.Base.{
  ℕ, zero, suc, ◌≤◌, ◌≡◌, refl, sym, ap, ◌∙◌, true, false, Option, none, some, List, [], ◌∷◌, arith,
  All, Bool-cases, inl, inr, ◌==◌,
}
use apex_store.Base.Bytes.{Bytes, bytes_lt, bytes_eq, bytes_beq_iff, lt_irrefl}
use apex_store.Base.Dict
use apex_store.Base.Dict.{Dict}
use apex_store.Base.Sorted.{Above, IsAscending, Above-trans}
use apex_store.Merge.{Entry, advance, push, pop, steps_left, next_after, collect, heap_of, merged}
use apex_store.Merge.Find.{
  tagged, untagged, better, find, Past, AtLeast, IndexAtLeast, IndexAtLeast-tagged,
  IndexAtLeast-better, better-IndexAtLeast,
}
use apex_store.Merge.Heap.{
  Picks, Picks-All, All-Picks, Fresh, First, pop-cons, before-key, find-First,
}
use apex_store.Merge.Skip.{IsGood, IsPast, get-nil, push-IsPushed, skip-IsPast}

module _ {ℓ} {V : Type ℓ} where
  First-AtLeast : (e : Entry V) (others : List (Entry V)) → First e others → AtLeast e.key others
  First-AtLeast e [] f = tt
  First-AtLeast e (g ∷ others) f = (before-key g e f.0, First-AtLeast e others f.1)

  -- What `next` leaves of a heap from which `e` was popped.
  record IsNext (heap : List (Entry V)) (e : Entry V) (after : List (Entry V)) : Type ℓ where
    past : IsPast e.key heap after
    fewer : suc (steps_left after) ≤ steps_left heap

  next_after-IsNext :
      (heap : List (Entry V)) (e : Entry V) (others : List (Entry V))
      → Picks heap e others
      → First e others
      → IsGood heap
      → IsNext heap e (next_after e others)
  unfolding next_after
  next_after-IsNext heap e others p first g =
      let pushed = push-IsPushed heap e others p g in
      let floor = pushed.floor (
        All-Picks (λ f. bytes_lt f.key e.key ≡ false) p (lt_irrefl e.key)
          (First-AtLeast e others first)) in
      let mid = push (advance e) others in
      let h = skip-IsPast (steps_left mid) e.key mid (omega arith) pushed.good floor in
      record {
        past = record {
          good = h.good;
          past = h.past;
          same = λ k ne. h.same k ne ∙ pushed.same k ne;
          fewer = omega (arith, h.fewer, pushed.steps);
        };
        fewer = omega (arith, h.fewer, pushed.steps);
      }

  -- `m` has the versions that the heap holds, in ascending order.
  record IsMerge (heap : List (Entry V)) (m : Dict Bytes V) : Type ℓ where
    found : (k : Bytes) → Dict.get k m ≡ untagged (find k heap)
    ascending : IsAscending m
    above : (c : Bytes) → Past c heap → Above c m

  IsMerge-cons :
      (heap : List (Entry V)) (e : Entry V) (others after : List (Entry V)) (m : Dict Bytes V)
      → Picks heap e others
      → First e others
      → IsGood heap
      → IsPast e.key heap after
      → IsMerge after m
      → IsMerge heap ((e.key, e.item) ∷ m)
  unfolding Dict.get
  IsMerge-cons heap e others after m p first g past h = record {
    found = λ k. elim (Bool-cases (e.key == k)) [
      | inl same_key ↦ rw same_key (
          rw (← (bytes_beq_iff e.key k).0 same_key)
            (sym (ap untagged (find-First e heap others p first g.distinct g.ordered))))
      | inr other ↦ rw other (
          h.found k
          ∙ ap untagged
              (past.same k (λ q. ground (arith, other, (bytes_beq_iff e.key k).1 (sym q)))))
    ];
    ascending = (h.above e.key past.past, h.ascending);
    above = λ c beyond.
        let here : bytes_lt c e.key ≡ true =
          (Picks-All (λ f. bytes_lt c f.key ≡ true) p beyond).0 in
        (here, Above-trans c e.key m here (h.above e.key past.past));
  }

  collect-stop : (fuel : ℕ) → collect {V = V} fuel [] ≡ []
  unfolding collect
  collect-stop zero = refl
  collect-stop (suc fuel) = refl

  collect-step :
      (fuel : ℕ) (heap : List (Entry V)) (r : Entry V × List (Entry V))
      → pop heap ≡ some r
      → collect (suc fuel) heap ≡ (r.0.key, r.0.item) ∷ collect fuel (next_after r.0 r.1)
  unfolding collect
  collect-step fuel heap r popped = rw (popped, collect)

  -- With a round of fuel for each step that is left, the walk hands out all that the heap holds.
  collect-IsMerge :
      (fuel : ℕ) (heap : List (Entry V))
      → steps_left heap ≤ fuel
      → IsGood heap
      → IsMerge heap (collect fuel heap)
  unfolding steps_left
  collect-IsMerge fuel [] enough g =
      rw (collect-stop fuel)
        (unfold Dict.get find in record { found = λ k. refl; ascending = tt; above = λ c h. tt })
  collect-IsMerge zero (e ∷ heap) enough g = absurd (omega arith)
  collect-IsMerge (suc fuel) (e ∷ heap) enough g =
      let (r, popped, is_pop) = pop-cons e heap in
      let next = next_after-IsNext (e ∷ heap) r.0 r.1 is_pop.picks is_pop.first g in
      rw (collect-step fuel (e ∷ heap) r popped) (
        IsMerge-cons (e ∷ heap) r.0 r.1 (next_after r.0 r.1) (collect fuel (next_after r.0 r.1))
          is_pop.picks is_pop.first g next.past
          (collect-IsMerge fuel (next_after r.0 r.1) (omega (arith, next.fewer)) next.past.good))

  abbrev pub or_else : Option V → Option V → Option V
  or_else none b = b
  or_else (some a) b = some a

  -- The version of the first iterator that has the key.
  abbrev pub first_version : Bytes → List (Dict Bytes V) → Option V
  first_version k [] = none
  first_version k (l ∷ ls) = or_else (Dict.get k l) (first_version k ls)

  abbrev pub AllAscending : List (Dict Bytes V) → Type 0
  AllAscending ls = All IsAscending ls

  heap_of-Indices : (i j : ℕ) (ls : List (Dict Bytes V)) → suc i ≤ j → Fresh i (heap_of j ls)
  unfolding heap_of
  heap_of-Indices i j [] h = tt
  heap_of-Indices i j ([] ∷ ls) h = heap_of-Indices i (suc j) ls (omega arith)
  heap_of-Indices i j (((k, v) ∷ l) ∷ ls) h =
      (omega arith, heap_of-Indices i (suc j) ls (omega arith))

  heap_of-IsGood : (i : ℕ) (ls : List (Dict Bytes V)) → AllAscending ls → IsGood (heap_of i ls)
  unfolding heap_of
  heap_of-IsGood i [] a = record { distinct = tt; ordered = tt }
  heap_of-IsGood i ([] ∷ ls) a = heap_of-IsGood (suc i) ls a.1
  heap_of-IsGood i (((k, v) ∷ l) ∷ ls) a =
      let g = heap_of-IsGood (suc i) ls a.1 in
      record {
        distinct = (heap_of-Indices i (suc i) ls (omega arith), g.distinct);
        ordered = (a.0, g.ordered);
      }

  heap_of-IndexAtLeast :
      (k : Bytes) (i j : ℕ) (ls : List (Dict Bytes V))
      → i ≤ j
      → IndexAtLeast i (find k (heap_of j ls))
  unfolding heap_of find
  heap_of-IndexAtLeast k i j [] h = tt
  heap_of-IndexAtLeast k i j ([] ∷ ls) h = heap_of-IndexAtLeast k i (suc j) ls (omega arith)
  heap_of-IndexAtLeast k i j (((c, v) ∷ l) ∷ ls) h =
      IndexAtLeast-better i (tagged j (Dict.get k ((c, v) ∷ l))) (find k (heap_of (suc j) ls))
        (IndexAtLeast-tagged i j (Dict.get k ((c, v) ∷ l)) h)
        (heap_of-IndexAtLeast k i (suc j) ls (omega arith))

  first_wins :
      (i : ℕ) (a : Option V) (o : Option (ℕ × V))
      → IndexAtLeast i o
      → untagged (better (tagged i a) o) ≡ or_else a (untagged o)
  first_wins i none o h = refl
  first_wins i (some v) o h = ap untagged (better-IndexAtLeast i v o h)

  find-heap_of :
      (k : Bytes) (i : ℕ) (ls : List (Dict Bytes V))
      → untagged (find k (heap_of i ls)) ≡ first_version k ls
  unfolding heap_of find
  find-heap_of k i [] = refl
  find-heap_of k i ([] ∷ ls) =
      find-heap_of k (suc i) ls ∙ sym (ap (λ o. or_else o (first_version k ls)) (get-nil k))
  find-heap_of k i (((c, v) ∷ l) ∷ ls) =
      first_wins i (Dict.get k ((c, v) ∷ l)) (find k (heap_of (suc i) ls))
        (heap_of-IndexAtLeast k i (suc i) ls (omega arith))
      ∙ ap (or_else (Dict.get k ((c, v) ∷ l))) (find-heap_of k (suc i) ls)

  -- A merge of iterators, each in ascending order of keys, hands out keys in ascending order, and
  -- under each key the version of the first iterator, the newest, that has it.
  pub merged_lem :
      (ls : List (Dict Bytes V))
      → AllAscending ls
      → IsAscending (merged ls) × ((k : Bytes) → Dict.get k (merged ls) ≡ first_version k ls)
  unfolding merged
  merged_lem ls a =
      let h =
        collect-IsMerge (steps_left (heap_of 0 ls)) (heap_of 0 ls) (omega arith)
          (heap_of-IsGood 0 ls a) in
      (h.ascending, λ k. h.found k ∙ find-heap_of k 0 ls)
