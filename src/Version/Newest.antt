-- ===== src/Version/Newest.antt =====
-- The newest table of core/engine/version_set.rs decides a lookup, where it was built from a map
-- by core/table.rs.
use apex_store.Base.{
  ℕ, String, ◌≡◌, refl, ◌∙◌, ap, Bool, true, false, not, Option, none, some, List, [], ◌∷◌, ◌++◌,
  map, arith, Any, Bool-cases, inl, inr, if◌then◌else◌, ◌==◌, string_eq,
}
use mathlib.Core.List.{reverse, reverse-append}
use apex_store.Base.Bytes.{
  Bytes, bytes_lt, bytes_eq, bytes_beq_iff, lt_irrefl, lt_asymm, lt_le_trans,
}
use apex_store.Base.Dict
use apex_store.Base.Dict.{Dict, get-insert_self}
use apex_store.Base.Sorted.{
  Above, Above-trans, IsAscending, Unique, sort_by_key, get-sort_by_key, sort_by_key-IsAscending,
}
use apex_store.Version.Cached.{get-miss}
use apex_store.Merge.Find.{get-Above}
use apex_store.Version.{
  Files, Table, VersionSet, first_key, last_from, last_key, build, is_empty, tables_of, add_table,
  get_cached, outside_both, bloom_rejects, probe_data, probe, search_tables, get, Probe, next_table,
  probe_file,
}

module _ {ℓ} {V : Type ℓ} where
  -- A key of an ascending list is within its first and its last key.
  pub first_key-le :
      (k : Bytes) (v : V) (s : Dict Bytes V)
      → IsAscending s
      → Dict.get k s ≡ some v
      → bytes_lt k (first_key s) ≡ false
  unfolding Dict.get first_key
  first_key-le k v [] a h = cc
  first_key-le k v ((j, w) ∷ s) a h = elim (Bool-cases (bytes_lt k j)) [
    | inl before ↦ absurd (cc (h, get-Above k ((j, w) ∷ s) (before, Above-trans k j s before a.0)))
    | inr e ↦ e
  ]

  le-last_from :
      (b : Bytes) (s : Dict Bytes V)
      → Above b s
      → IsAscending s
      → bytes_lt (last_from b s) b ≡ false
  unfolding last_from
  le-last_from b [] h a = lt_irrefl b
  le-last_from b ((j, w) ∷ s) h a =
      lt_asymm b (last_from j s) (lt_le_trans b j (last_from j s) h.0 (le-last_from j s a.0 a.1))

  found-le-last_from :
      (b k : Bytes) (v : V) (s : Dict Bytes V)
      → Above b s
      → IsAscending s
      → Dict.get k s ≡ some v
      → bytes_lt (last_from b s) k ≡ false
  unfolding last_from
  found-le-last_from b k v [] h a g = unfold Dict.get in cc
  found-le-last_from b k v ((j, w) ∷ s) h a g = elim (Bool-cases (j == k)) [
    | inl same ↦ rw (← (bytes_beq_iff j k).0 same) (le-last_from j s a.0 a.1)
    | inr other ↦ found-le-last_from j k v s a.0 a.1 (unfold Dict.get in ground (arith, g, other))
  ]

  pub le-last_key :
      (k : Bytes) (v : V) (s : Dict Bytes V)
      → IsAscending s
      → Dict.get k s ≡ some v
      → bytes_lt (last_key s) k ≡ false
  unfolding last_key
  le-last_key k v [] a h = unfold Dict.get in cc
  le-last_key k v ((j, w) ∷ s) a h = elim (Bool-cases (j == k)) [
    | inl same ↦ rw (← (bytes_beq_iff j k).0 same) (le-last_from j s a.0 a.1)
    | inr other ↦ found-le-last_from j k v s a.0 a.1 (unfold Dict.get in ground (arith, h, other))
  ]

  -- The keys of a list contain those that it maps.
  pub keys_contain :
      (k : Bytes) (v : V) (s : Dict Bytes V)
      → Dict.get k s ≡ some v
      → Any (λ j. j ≡ k) (map (λ p. p.0) s)
  unfolding Dict.get
  keys_contain k v [] h = absurd (cc h)
  keys_contain k v ((j, w) ∷ s) h = elim (Bool-cases (j == k)) [
    | inl same ↦ inl ((bytes_beq_iff j k).0 same)
    | inr other ↦ inr (keys_contain k v s (ground (arith, h, other)))
  ]

-- What the `bloomfilter` crate documents: no false negatives.
abbrev pub HasNoFalseNegatives : (List Bytes → Option (Bytes → Bool)) → Type 0
HasNoFalseNegatives new_bloom =
    (keys : List Bytes) (check : Bytes → Bool)
    → new_bloom keys ≡ some check
    → (k : Bytes) → Any (λ j. j ≡ k) keys
    → check k ≡ true

-- What a table without a file says of a key: an empty value stands for a deletion.
abbrev pub stored_answer : Option Bytes → Option (Option Bytes)
stored_answer none = none
stored_answer (some []) = some none
stored_answer (some (b ∷ bs)) = some (some (b ∷ bs))

pub rejects_none :
    (k : Bytes) (o : Option (Bytes → Bool))
    → ((check : Bytes → Bool) → o ≡ some check → check k ≡ true)
    → elim o [ none ↦ false | some check ↦ not (check k) ] ≡ false
rejects_none k none h = refl
rejects_none k (some check) h = rw (h check refl)

some_of_if :
    (b : Bool) (o : Option (Bytes → Bool)) (check : Bytes → Bool)
    → (if b then none else o) ≡ some check
    → o ≡ some check
some_of_if true o check h = absurd (cc h)
some_of_if false o check h = h

module _ (new_bloom : List Bytes → Option (Bytes → Bool)) (sound : HasNoFalseNegatives new_bloom)
    (m : Dict Bytes Bytes) (u : Unique m) where
  build-in_range :
      (k v : Bytes) → Dict.get k m ≡ some v → outside_both (build new_bloom m) k ≡ false
  unfolding build outside_both
  build-in_range k v h =
      let g : Dict.get k (sort_by_key m) ≡ some v = get-sort_by_key k m ∙ h in
      ground (
        arith,
        first_key-le k v (sort_by_key m) (sort_by_key-IsAscending m u) g,
        le-last_key k v (sort_by_key m) (sort_by_key-IsAscending m u) g,
      )

  build-accepted :
      (k v : Bytes) → Dict.get k m ≡ some v → bloom_rejects (build new_bloom m) k ≡ false
  unfolding build bloom_rejects
  build-accepted k v h =
      let o = new_bloom (map (λ p. p.0) (sort_by_key m)) in
      rejects_none k (if is_empty m then none else o) (λ check q.
        sound (map (λ p. p.0) (sort_by_key m)) check (some_of_if (is_empty m) o check q) k
          (keys_contain k v (sort_by_key m) (get-sort_by_key k m ∙ h)))

  module _ (files : Files) (now : ℕ) (vs : VersionSet) (k : Bytes) where
    probe-found :
        (v : Bytes)
        → Dict.get k m ≡ some v
        → probe files now k (build new_bloom m) vs
          ≡ probe_data files now k (build new_bloom m) (some v) vs
    unfolding probe
    probe-found v h = rw (build-in_range k v h) (
        rw (build-accepted k v h)
          (ap (λ o. probe_data files now k (build new_bloom m) o vs) (data_found v h)))
      where
        data_found :
            (w : Bytes) → Dict.get k m ≡ some w → Dict.get k (build new_bloom m).data_map ≡ some w
        data_found w q = unfold build in q

    probe-absent : Dict.get k m ≡ none → probe files now k (build new_bloom m) vs ≡ next_table vs
    unfolding probe
    probe-absent h =
        same_branch (outside_both (build new_bloom m) k) (next_table vs)
          (if bloom_rejects (build new_bloom m) k
            then next_table vs
            else probe_data files now k (build new_bloom m)
                (Dict.get k (build new_bloom m).data_map) vs)
          refl
          (same_branch (bloom_rejects (build new_bloom m) k) (next_table vs)
            (probe_data files now k (build new_bloom m) (Dict.get k (build new_bloom m).data_map)
              vs)
            refl (ap (λ o. probe_data files now k (build new_bloom m) o vs) data_absent ∙ no_file))
      where
        same_branch :
            (b : Bool) (x y : Probe)
            → x ≡ next_table vs
            → y ≡ next_table vs
            → (if b then x else y) ≡ next_table vs
        same_branch true x y p q = p
        same_branch false x y p q = q

        data_absent : Dict.get k (build new_bloom m).data_map ≡ none
        data_absent = unfold build in h

        no_file : probe_data files now k (build new_bloom m) none vs ≡ next_table vs
        no_file = unfold probe_data build probe_file in refl

    -- What a search finds that starts with the built table.
    search-build :
        (ts : List Table) (o : Option Bytes)
        → Dict.get k m ≡ o
        → (search_tables files now k (build new_bloom m ∷ ts) vs).0
          ≡ elim (stored_answer o) [ none ↦ (search_tables files now k ts vs).0 | some a ↦ a ]
    unfolding search_tables
    search-build ts none h = rw (probe-absent h, search_tables)
    search-build ts (some []) h =
        rw (probe-found [] h, search_tables) (unfold probe_data build in refl)
    search-build ts (some (b ∷ bs)) h =
        rw (probe-found (b ∷ bs) h, search_tables) (unfold probe_data in refl)

  pub tables_of-add_table :
      (cf : String) (t : Table) (vs : VersionSet)
      → tables_of (add_table cf t vs) cf ≡ tables_of vs cf ++ t ∷ []
  unfolding add_table
  tables_of-add_table cf t vs =
      rw (get-insert_self cf (tables_of vs cf ++ t ∷ []) vs.tables, tables_of)

  -- After a table is built from a map and added, a lookup of a key of the map is answered by the
  -- map, an empty value standing for a deletion, and a lookup of any other key by the older tables
  -- and not by the cache.
  pub get-add_build :
      (files : Files) (now : ℕ) (cf : String) (k : Bytes) (vs : VersionSet)
      → (get files now cf k (add_table cf (build new_bloom m) vs)).0
        ≡ elim (stored_answer (Dict.get k m)) [
          | none ↦
              (search_tables files now k
                (reverse (tables_of vs cf))
                (add_table cf (build new_bloom m) vs)).0
          | some a ↦ a
        ]
  get-add_build files now cf k vs =
      let t = build new_bloom m in
      let vs' = add_table cf t vs in
      ap (λ (r : Option Bytes × VersionSet). r.0) (get-miss files now cf k vs' no_cache)
      ∙ ap (λ (ts : List Table). (search_tables files now k (reverse ts) vs').0)
          (tables_of-add_table cf t vs)
      ∙ ap (λ (ts : List Table). (search_tables files now k ts vs').0)
          (reverse-append (tables_of vs cf) (t ∷ []))
      ∙ search-build files now vs' k (reverse (tables_of vs cf)) (Dict.get k m) refl
    where
      no_cache : get_cached (add_table cf (build new_bloom m) vs) k ≡ none
      no_cache = unfold get_cached add_table Dict.get in refl
