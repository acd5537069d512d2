-- ===== src/Crdt/Laws.antt =====
-- The merges of infra/crdt.rs.
use apex_store.Base.{
  ℕ, ◌≤◌, max, String, ◌≡◌, ◌≢◌, refl, sym, ap, ◌∙◌, Bool, true, false, Option, none, some, [], ◌∷◌,
  leb, if◌then◌else◌, ◌==◌, string_eq, arith, Bool-cases, inl, inr,
}
use text.Mathlib.TextEquality.{eq_iff}
use apex_store.Base.Bytes.{Bytes, bytes_eq, bytes_beq_iff}
use apex_store.Base.Dict
use apex_store.Base.Dict.{Dict, get-insert}
use apex_store.Crdt.{
  GCounter, CrdtEngine, merge, merge_over, get_state, count_in, merge_counts, merge_counter,
}

-- The entry that a merge leaves under its key.
abbrev pub later : Option (Bytes × ℕ) → Bytes → ℕ → Option (Bytes × ℕ)
later none value ts = some (value, ts)
later (some (old, existing)) value ts =
    if leb ts existing then some (old, existing) else some (value, ts)

-- A map has a key once.
abbrev pub Distinct : Dict String ℕ → Type 0
Distinct [] = Unit
Distinct ((node, n) ∷ m) = (Dict.get node m ≡ none) × Distinct m

count_in-insert :
    (node other : String) (n : ℕ) (m : Dict String ℕ)
    → count_in other (Dict.insert node n m) ≡ (if node == other then n else count_in other m)
unfolding count_in
count_in-insert node other n m =
    ap (λ (o : Option ℕ). elim o [ none ↦ 0 | some k ↦ k ]) (get-insert node other n m)
    ∙ split (node == other)
  where
    split :
        (b : Bool)
        → elim (if b then some n else Dict.get other m) [ none ↦ 0 | some k ↦ k ]
          ≡ (if b then n else elim (Dict.get other m) [ none ↦ 0 | some k ↦ k ])
    split true = refl
    split false = refl

count_in-cons :
    (node k : String) (n : ℕ) (m : Dict String ℕ)
    → count_in node ((k, n) ∷ m) ≡ (if k == node then n else count_in node m)
unfolding count_in Dict.get
count_in-cons node k n m = split (k == node)
  where
    split :
        (b : Bool)
        → elim (if b then some n else Dict.get node m) [ none ↦ 0 | some i ↦ i ]
          ≡ (if b then n else elim (Dict.get node m) [ none ↦ 0 | some i ↦ i ])
    split true = refl
    split false = refl

absent : (k : String) (m : Dict String ℕ) → Dict.get k m ≡ none → count_in k m ≡ 0
unfolding count_in
absent k m h = ap (λ (o : Option ℕ). elim o [ none ↦ 0 | some i ↦ i ]) h

count_in-merge_counts :
    (node : String) (other m : Dict String ℕ)
    → Distinct other
    → count_in node (merge_counts other m) ≡ max (count_in node m) (count_in node other)
unfolding merge_counts
count_in-merge_counts node [] m d = unfold count_in in unfold Dict.get in omega arith
count_in-merge_counts node ((k, n) ∷ other) m d =
    count_in-merge_counts node other (Dict.insert k (max (count_in k m) n) m) d.1
    ∙ ap (λ (i : ℕ). max i (count_in node other)) (count_in-insert k node (max (count_in k m) n) m)
    ∙ elim (Bool-cases (k == node)) [
      | inl same ↦
          let e : k ≡ node = (eq_iff k node).0 same in
          let here : count_in k m ≡ count_in node m = ap (λ (j : String). count_in j m) e in
          let once : count_in node other ≡ 0 =
            ap (λ (j : String). count_in j other) (sym e) ∙ absent k other d.0 in
          pick (k == node) same here once (
            count_in-cons node k n other
            ∙ ap (λ (b : Bool). if b then n else count_in node other) same)
      | inr other_node ↦
          ap
            (λ (b : Bool).
              max (if b then max (count_in k m) n else count_in node m) (count_in node other))
            other_node
          ∙ ap (max (count_in node m)) (
              sym (
                count_in-cons node k n other
                ∙ ap (λ (b : Bool). if b then n else count_in node other) other_node))
    ]
  where
    pick :
        (b : Bool)
        → b ≡ true
        → count_in k m ≡ count_in node m
        → count_in node other ≡ 0
        → count_in node ((k, n) ∷ other) ≡ n
        → max (if b then max (count_in k m) n else count_in node m) (count_in node other)
          ≡ max (count_in node m) (count_in node ((k, n) ∷ other))
    pick true h here once cons = omega (arith, here, once, cons)
    pick false h here once cons = cc h

insert-Distinct :
    (k : String) (n : ℕ) (m : Dict String ℕ) → Distinct m → Distinct (Dict.insert k n m)
unfolding Dict.insert Dict.get
insert-Distinct k n [] d = (refl, tt)
insert-Distinct k n ((j, i) ∷ m) d = elim (Bool-cases (j == k)) [
  | inl same ↦ rw same (ap (λ (l : String). Dict.get l m) (sym ((eq_iff j k).0 same)) ∙ d.0, d.1)
  | inr other ↦ rw other (
    get-insert k j n m
        ∙ ap (λ (b : Bool). if b then some n else Dict.get j m) (apart (k == j) refl other)
        ∙ d.0,
    insert-Distinct k n m d.1,
  )
]
  where
    apart : (b : Bool) → (k == j) ≡ b → (j == k) ≡ false → b ≡ false
    apart true h other = ground (arith, h, other, eq_iff k j, eq_iff j k)
    apart false h other = refl

merge_counts-Distinct : (other m : Dict String ℕ) → Distinct m → Distinct (merge_counts other m)
unfolding merge_counts
merge_counts-Distinct [] m d = d
merge_counts-Distinct ((k, n) ∷ other) m d =
    merge_counts-Distinct other (Dict.insert k (max (count_in k m) n) m)
      (insert-Distinct k (max (count_in k m) n) m d)

-- On counters whose maps have each node once, a merge keeps that and lowers no count, and merging is
-- commutative, associative and idempotent in every node's count.
pub merge_counter_laws :
    (node : String) (a b c : GCounter)
    → Distinct a.counters
    → Distinct b.counters
    → Distinct c.counters
    → Distinct (merge_counter a b).counters
      × (count_in node (merge_counter a b).counters ≡ count_in node (merge_counter b a).counters)
      × (count_in node (merge_counter a (merge_counter b c)).counters
          ≡ count_in node (merge_counter (merge_counter a b) c).counters)
      × (count_in node (merge_counter a a).counters ≡ count_in node a.counters)
      × (count_in node a.counters ≤ count_in node (merge_counter a b).counters)
unfolding merge_counter
merge_counter_laws node a b c da db dc = (
  merge_counts-Distinct a.counters b.counters db,
  omega (arith, ab, count_in-merge_counts node b.counters a.counters db),
  omega (
    arith,
    ab,
    count_in-merge_counts node b.counters c.counters db,
    count_in-merge_counts node a.counters (merge_counts b.counters c.counters) da,
    count_in-merge_counts node (merge_counts a.counters b.counters) c.counters
        (merge_counts-Distinct a.counters b.counters db),
  ),
  omega (arith, count_in-merge_counts node a.counters a.counters da),
  omega (arith, ab),
)
  where
    ab :
        count_in node (merge_counts a.counters b.counters)
        ≡ max (count_in node b.counters) (count_in node a.counters)
    ab = count_in-merge_counts node a.counters b.counters da

get_state-merge_over :
    (o : Option (Bytes × ℕ)) (key value other : Bytes) (ts : ℕ) (e : CrdtEngine)
    → Dict.get key e.state ≡ o
    → get_state other (merge_over o key value ts e)
      ≡ (if key == other then later o value ts else get_state other e)
unfolding merge_over get_state
get_state-merge_over none key value other ts e h = get-insert key other (value, ts) e.state
get_state-merge_over (some (old, existing)) key value other ts e h =
    elim (Bool-cases (leb ts existing)) [
      | inl stale ↦ rw stale (kept (key == other) refl)
      | inr fresh ↦ rw fresh (get-insert key other (value, ts) e.state)
    ]
  where
    kept :
        (b : Bool)
        → (key == other) ≡ b
        → Dict.get other e.state ≡ (if b then some (old, existing) else Dict.get other e.state)
    kept true same =
        ap (λ (k : Bytes). Dict.get k e.state) (sym ((bytes_beq_iff key other).0 same)) ∙ h
    kept false apart = refl

get_state-merge :
    (key value other : Bytes) (ts : ℕ) (e : CrdtEngine)
    → get_state other (merge key value ts e)
      ≡ (if key == other then later (get_state key e) value ts else get_state other e)
unfolding merge get_state
get_state-merge key value other ts e =
    get_state-merge_over (Dict.get key e.state) key value other ts e refl

later-swap :
    (o : Option (Bytes × ℕ)) (v w : Bytes) (i j : ℕ)
    → i ≢ j
    → later (later o v i) w j ≡ later (later o w j) v i
later-swap none v w i j apart = ground (arith, apart)
later-swap (some (old, existing)) v w i j apart = ground (arith, apart)

get_state-hit :
    (key value other : Bytes) (ts : ℕ) (e : CrdtEngine)
    → (key == other) ≡ true
    → get_state other (merge key value ts e) ≡ later (get_state other e) value ts
get_state-hit key value other ts e h =
    get_state-merge key value other ts e
    ∙ ap (λ (b : Bool). if b then later (get_state key e) value ts else get_state other e) h
    ∙ ap (λ (k : Bytes). later (get_state k e) value ts) ((bytes_beq_iff key other).0 h)

get_state-miss :
    (key value other : Bytes) (ts : ℕ) (e : CrdtEngine)
    → (key == other) ≡ false
    → get_state other (merge key value ts e) ≡ get_state other e
get_state-miss key value other ts e h =
    get_state-merge key value other ts e
    ∙ ap (λ (b : Bool). if b then later (get_state key e) value ts else get_state other e) h

-- Two writes with different timestamps, of the same key or of two, leave the same value and timestamp
-- under every key in whichever order they are merged.
pub merge_order :
    (first second v w other : Bytes) (i j : ℕ) (e : CrdtEngine)
    → i ≢ j
    → get_state other (merge second w j (merge first v i e))
      ≡ get_state other (merge first v i (merge second w j e))
merge_order first second v w other i j e apart = elim (Bool-cases (first == other)) [
  | inl a ↦ elim (Bool-cases (second == other)) [
    | inl b ↦
        get_state-hit second w other j (merge first v i e) b
        ∙ ap (λ (o : Option (Bytes × ℕ)). later o w j) (get_state-hit first v other i e a)
        ∙ later-swap (get_state other e) v w i j apart
        ∙ ap (λ (o : Option (Bytes × ℕ)). later o v i) (sym (get_state-hit second w other j e b))
        ∙ sym (get_state-hit first v other i (merge second w j e) a)
    | inr b ↦
        get_state-miss second w other j (merge first v i e) b
        ∙ get_state-hit first v other i e a
        ∙ ap (λ (o : Option (Bytes × ℕ)). later o v i) (sym (get_state-miss second w other j e b))
        ∙ sym (get_state-hit first v other i (merge second w j e) a)
  ]
  | inr a ↦ elim (Bool-cases (second == other)) [
    | inl b ↦
        get_state-hit second w other j (merge first v i e) b
        ∙ ap (λ (o : Option (Bytes × ℕ)). later o w j) (get_state-miss first v other i e a)
        ∙ sym (get_state-hit second w other j e b)
        ∙ sym (get_state-miss first v other i (merge second w j e) a)
    | inr b ↦
        get_state-miss second w other j (merge first v i e) b
        ∙ get_state-miss first v other i e a
        ∙ sym (get_state-miss second w other j e b)
        ∙ sym (get_state-miss first v other i (merge second w j e) a)
  ]
]
