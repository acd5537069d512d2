-- ===== src/Merge/Skip.antt =====
-- `skip_duplicates` and `next` of core/iterators.rs: after them every iterator is past the key.
use apex_store.Base.{
  ℕ, zero, suc, ◌≤◌, ◌≡◌, ◌≢◌, refl, sym, ap, subst, ◌∙◌, true, false, Option, none, some, List, [],
  ◌∷◌, arith, Bool-cases, inl, inr, ◌==◌,
}
use apex_store.Base.Bytes.{
  Bytes, bytes_lt, bytes_eq, bytes_beq_iff, lt_total, lt_asymm, lt_le_trans,
}
use apex_store.Base.Dict
use apex_store.Base.Sorted.{Above, IsAscending}
use apex_store.Merge.{Entry, entry_of, advance, push, pop, steps_left, skip_duplicates}
use apex_store.Merge.Find.{tagged, entry_get, entry_get-ne, better, find, Ordered, AtLeast, Past}
use apex_store.Merge.Heap.{
  Picks, Picks-All, All-Picks, Picks-Distinct, Picks-steps, Picks-find, Distinct, First, pop-cons,
  pop-nil, before-key,
}

module _ {ℓ} {V : Type ℓ} where
  -- A heap whose entries have different indices, and ascending keys.
  pub record IsGood (heap : List (Entry V)) : Type ℓ where
    pub distinct : Distinct heap
    pub ordered : Ordered heap

  -- `heap'` has what `heap` has at every key but `c`, and stands past `c`.
  pub record IsPast (c : Bytes) (heap heap' : List (Entry V)) : Type ℓ where
    pub good : IsGood heap'
    pub past : Past c heap'
    pub same : (k : Bytes) → k ≢ c → find k heap' ≡ find k heap
    pub fewer : steps_left heap' ≤ steps_left heap

  -- Pushing the iterator of a popped entry back after `next`.
  pub record IsPushed (heap : List (Entry V)) (e : Entry V) (heap' : List (Entry V)) : Type ℓ where
    pub good : IsGood heap'
    pub floor : AtLeast e.key heap → AtLeast e.key heap'
    pub same : (k : Bytes) → k ≢ e.key → find k heap' ≡ find k heap
    pub steps : steps_left heap ≡ suc (steps_left heap')

  entry_get-step :
      (k c : Bytes) (i : ℕ) (v : V) (rest : Dict.Dict Bytes V)
      → k ≢ c
      → entry_get k (record { index = i; key = c; item = v; rest = rest }) ≡ Dict.get k rest
  entry_get-step k c i v rest h =
      entry_get-ne k (record { index = i; key = c; item = v; rest = rest }) h

  pub get-nil : (k : Bytes) → Dict.get {V = V} k [] ≡ none
  unfolding Dict.get
  get-nil k = refl

  push-entry :
      (heap : List (Entry V)) (i : ℕ) (c : Bytes) (v : V) (rest : Dict.Dict Bytes V)
      (others : List (Entry V))
      → Picks heap (record { index = i; key = c; item = v; rest = rest }) others
      → IsGood heap
      → IsPushed heap
          (record { index = i; key = c; item = v; rest = rest })
          (push (entry_of i rest) others)
  unfolding entry_of steps_left find
  push-entry heap i c v [] others p g = record {
    good = record {
      distinct = (Picks-Distinct p g.distinct).1;
      ordered = (Picks-All (λ e. Above e.key e.rest × IsAscending e.rest) p g.ordered).1;
    };
    floor = λ h. (Picks-All (λ e. bytes_lt e.key c ≡ false) p h).1;
    same = λ k ne. sym (
        Picks-find k p g.distinct
        ∙ ap (λ (x : Option V). better (tagged i x) (find k others))
            (entry_get-step k c i v [] ne ∙ get-nil k));
    steps = omega (arith, Picks-steps p);
  }
  push-entry heap i c v ((j, w) ∷ rest) others p g =
      let (fresh, distinct) = Picks-Distinct p g.distinct in
      let (mine, theirs) = Picks-All (λ e. Above e.key e.rest × IsAscending e.rest) p g.ordered in
      record {
        good = record { distinct = (fresh, distinct); ordered = (mine.1, theirs) };
        floor = λ h. (lt_asymm c j mine.0.0, (Picks-All (λ e. bytes_lt e.key c ≡ false) p h).1);
        same = λ k ne. sym (
            Picks-find k p g.distinct
            ∙ ap (λ (x : Option V). better (tagged i x) (find k others))
                (entry_get-step k c i v ((j, w) ∷ rest) ne));
        steps = omega (arith, Picks-steps p);
      }

  pub push-IsPushed :
      (heap : List (Entry V)) (e : Entry V) (others : List (Entry V))
      → Picks heap e others
      → IsGood heap
      → IsPushed heap e (push (advance e) others)
  unfolding advance
  push-IsPushed heap e others p g = push-entry heap e.index e.key e.item e.rest others p g

  First-Past :
      (c : Bytes) (e : Entry V) (others : List (Entry V))
      → bytes_lt c e.key ≡ true
      → First e others
      → Past c others
  First-Past c e [] h f = tt
  First-Past c e (g ∷ others) h f =
      (lt_le_trans c e.key g.key h (before-key g e f.0), First-Past c e others h f.1)

  IsPast-stay :
      (c : Bytes) (heap : List (Entry V)) (e : Entry V) (others : List (Entry V))
      → Picks heap e others
      → First e others
      → (e.key == c) ≡ false
      → IsGood heap
      → AtLeast c heap
      → IsPast c heap heap
  IsPast-stay c heap e others p first other g floor =
      let past : bytes_lt c e.key ≡ true = ground (
        arith,
        lt_total e.key c,
        bytes_beq_iff e.key c,
        (Picks-All (λ f. bytes_lt f.key c ≡ false) p floor).0,
      ) in
      record {
        good = g;
        past = All-Picks (λ f. bytes_lt c f.key ≡ true) p past (First-Past c e others past first);
        same = λ k ne. refl;
        fewer = omega arith;
      }

  IsPast-step :
      (c : Bytes) (heap : List (Entry V)) (e : Entry V) (mid last : List (Entry V))
      → e.key ≡ c
      → IsPushed heap e mid
      → IsPast c mid last
      → IsPast c heap last
  IsPast-step c heap e mid last q pushed h = record {
    good = h.good;
    past = h.past;
    same = λ k ne. h.same k ne ∙ pushed.same k (λ same_key. ne (same_key ∙ q));
    fewer = omega (arith, h.fewer, pushed.steps);
  }

  pushed_floor :
      (c : Bytes) (heap : List (Entry V)) (e : Entry V) (mid : List (Entry V))
      → e.key ≡ c
      → IsPushed heap e mid
      → AtLeast c heap
      → AtLeast c mid
  pushed_floor c heap e mid q pushed floor =
      subst (λ x. AtLeast x mid) q (pushed.floor (subst (λ x. AtLeast x heap) (sym q) floor))

  skip-stop :
      (fuel : ℕ) (c : Bytes) (heap : List (Entry V)) (r : Entry V × List (Entry V))
      → pop heap ≡ some r
      → (r.0.key == c) ≡ false
      → skip_duplicates (suc fuel) c heap ≡ heap
  unfolding skip_duplicates
  skip-stop fuel c heap r popped other =
      rw (popped, skip_duplicates) (rw (other, skip_duplicates) refl)

  skip-again :
      (fuel : ℕ) (c : Bytes) (heap : List (Entry V)) (r : Entry V × List (Entry V))
      → pop heap ≡ some r
      → (r.0.key == c) ≡ true
      → skip_duplicates (suc fuel) c heap ≡ skip_duplicates fuel c (push (advance r.0) r.1)
  unfolding skip_duplicates
  skip-again fuel c heap r popped same_key =
      rw (popped, skip_duplicates) (rw (same_key, skip_duplicates) refl)

  skip-nil : (fuel : ℕ) (c : Bytes) → skip_duplicates {V = V} fuel c [] ≡ []
  unfolding skip_duplicates
  skip-nil zero c = refl
  skip-nil (suc fuel) c = rw (pop-nil, skip_duplicates)

  -- With a round of fuel for each step that is left, all duplicates of `c` are skipped.
  pub skip-IsPast :
      (fuel : ℕ) (c : Bytes) (heap : List (Entry V))
      → steps_left heap ≤ fuel
      → IsGood heap
      → AtLeast c heap
      → IsPast c heap (skip_duplicates fuel c heap)
  unfolding steps_left
  skip-IsPast fuel c [] enough g floor =
      rw (skip-nil fuel c)
        (record { good = g; past = tt; same = λ k ne. refl; fewer = omega arith })
  skip-IsPast zero c (e ∷ heap) enough g floor = absurd (omega arith)
  skip-IsPast (suc fuel) c (e ∷ heap) enough g floor =
      let (r, popped, is_pop) = pop-cons e heap in
      let pushed = push-IsPushed (e ∷ heap) r.0 r.1 is_pop.picks g in
      elim (Bool-cases (r.0.key == c)) [
        | inl same_key ↦ rw (skip-again fuel c (e ∷ heap) r popped same_key) (
            IsPast-step c (e ∷ heap) r.0 (push (advance r.0) r.1)
              (skip_duplicates fuel c (push (advance r.0) r.1))
              ((bytes_beq_iff r.0.key c).0 same_key) pushed
              (skip-IsPast fuel c (push (advance r.0) r.1) (omega (arith, pushed.steps)) pushed.good
                (pushed_floor c (e ∷ heap) r.0 (push (advance r.0) r.1)
                  ((bytes_beq_iff r.0.key c).0 same_key) pushed floor)))
        | inr other ↦
            rw (skip-stop fuel c (e ∷ heap) r popped other)
              (IsPast-stay c (e ∷ heap) r.0 r.1 is_pop.picks is_pop.first other g floor)
      ]
