-- ===== src/Compaction/Lookup.antt =====
-- What core/engine/compaction.rs keeps of the tables that it merges.
use apex_store.Base.{
  ◌≡◌, refl, sym, ap, ◌∙◌, Bool, true, false, Option, none, some, List, [], ◌∷◌, map, arith, All,
  keep, keep-true, keep-false, ◌==◌, subst, All-append, Bool-cases, inl, inr, if◌then◌else◌,
}
use mathlib.Core.List.{reverse, reverse-append}
use apex_store.Base.Bytes.{Bytes, bytes_eq, bytes_beq_iff}
use apex_store.Base.Dict
use apex_store.Base.Dict.{Dict}
use apex_store.Base.Sorted.{Above, IsAscending, Unique, sort_by_key-IsAscending, get-sort_by_key}
use apex_store.Merge.{merged}
use apex_store.Merge.Find.{get-Above}
use apex_store.Merge.Collect.{merged_lem, first_version, or_else}
use apex_store.Record.{RangeTombstone}
use apex_store.Version.{Table, table_iter}
use apex_store.Compaction.{merge_data, survives, is_key_in_range_tombstones}

-- A lookup in the pairs of an ascending list that pass a test.
abbrev kept : (Bytes × Bytes → Bool) → Bytes → Option Bytes → Option Bytes
kept test k none = none
kept test k (some v) = if test (k, v) then some v else none

same_key :
    (test : Bytes × Bytes → Bool) (j k v : Bytes) (b : Bool)
    → j ≡ k
    → test (j, v) ≡ b
    → kept test k (some v) ≡ (if b then some v else none)
same_key test j k v b q h =
    ap (λ (x : Bytes). if test (x, v) then some v else none) (sym q)
    ∙ ap (λ c. if c then some v else none) h

get-keep :
    (test : Bytes × Bytes → Bool) (k : Bytes) (m : Dict Bytes Bytes)
    → IsAscending m
    → Dict.get k (keep test (λ p. p) m) ≡ kept test k (Dict.get k m)
unfolding Dict.get
get-keep test k [] a = refl
get-keep test k ((j, v) ∷ m) a = elim (Bool-cases (j == k)) [
  | inl same ↦ elim (Bool-cases (test (j, v))) [
    | inl pass ↦
        rw (keep-true test (λ p. p) (j, v) m pass)
          (rw same (sym (same_key test j k v true ((bytes_beq_iff j k).0 same) pass)))
    | inr fail ↦ rw (keep-false test (λ p. p) (j, v) m fail) (
        rw same (
          get-keep test k m a.1
          ∙ ap (kept test k)
              (get-Above k m (subst (λ x. Above x m) ((bytes_beq_iff j k).0 same) a.0))
          ∙ sym (same_key test j k v false ((bytes_beq_iff j k).0 same) fail)))
  ]
  | inr other ↦ elim (Bool-cases (test (j, v))) [
    | inl pass ↦ rw (keep-true test (λ p. p) (j, v) m pass) (rw other (get-keep test k m a.1))
    | inr fail ↦ rw (keep-false test (λ p. p) (j, v) m fail) (rw other (get-keep test k m a.1))
  ]
]

-- The version of the first table of the list, the newest, that has the key.
abbrev pub newest_version : Bytes → List Table → Option Bytes
newest_version k [] = none
newest_version k (t ∷ ts) = or_else (Dict.get k t.data_map) (newest_version k ts)

abbrev pub AllUnique : List Table → Type 0
AllUnique ts = All (λ t. Unique t.data_map) ts

AllUnique-IsAscending :
    (ts : List Table) → AllUnique ts → All (IsAscending {V = Bytes}) (map table_iter ts)
unfolding table_iter
AllUnique-IsAscending [] u = tt
AllUnique-IsAscending (t ∷ ts) u =
    (sort_by_key-IsAscending t.data_map u.0, AllUnique-IsAscending ts u.1)

first_version-newest :
    (k : Bytes) (ts : List Table) → first_version k (map table_iter ts) ≡ newest_version k ts
unfolding table_iter
first_version-newest k [] = refl
first_version-newest k (t ∷ ts) =
    ap (λ o. or_else o (first_version k (map table_iter ts))) (get-sort_by_key k t.data_map)
    ∙ ap (or_else (Dict.get k t.data_map)) (first_version-newest k ts)

AllUnique-reverse : (ts : List Table) → AllUnique ts → AllUnique (reverse ts)
AllUnique-reverse [] u = tt
AllUnique-reverse (t ∷ ts) u =
    subst AllUnique (sym (reverse-append (t ∷ []) ts)) (
      All-append (λ t. Unique t.data_map) (reverse ts) (t ∷ []) (AllUnique-reverse ts u.1)
        (u.0, tt))

-- What a compaction leaves under a key: nothing if a range tombstone covers the key, whatever the
-- times, and else the newest of the merged versions if that is not empty.
abbrev pub compacted_version : List RangeTombstone → Bytes → Option Bytes → Option Bytes
compacted_version tombstones k none = none
compacted_version tombstones k (some []) = none
compacted_version tombstones k (some (b ∷ bs)) =
    if is_key_in_range_tombstones k tombstones then none else some (b ∷ bs)

kept-compacted :
    (tombstones : List RangeTombstone) (k : Bytes) (o : Option Bytes)
    → kept (survives tombstones) k o ≡ compacted_version tombstones k o
unfolding survives
kept-compacted tombstones k none = refl
kept-compacted tombstones k (some []) = refl
kept-compacted tombstones k (some (b ∷ bs)) = ground arith

-- The data of the merged table: under each key what `compacted_version` says, of the newest table
-- that has the key.
pub get-merge_data :
    (ts : List Table) (tombstones : List RangeTombstone) (k : Bytes)
    → AllUnique ts
    → Dict.get k (merge_data ts tombstones)
      ≡ compacted_version tombstones k (newest_version k (reverse ts))
unfolding merge_data
get-merge_data ts tombstones k u =
    let (ascending, found) =
      merged_lem (map table_iter (reverse ts))
        (AllUnique-IsAscending (reverse ts) (AllUnique-reverse ts u)) in
    get-keep (survives tombstones) k (merged (map table_iter (reverse ts))) ascending
    ∙ ap (kept (survives tombstones) k) (found k ∙ first_version-newest k (reverse ts))
    ∙ kept-compacted tombstones k (newest_version k (reverse ts))
