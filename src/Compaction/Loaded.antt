-- ===== src/Compaction/Loaded.antt =====
-- core/engine/compaction.rs on tables that core/table.rs loaded from their files.
use apex_store.Base.{
  ℕ, suc, String, ◌≡◌, refl, sym, ap, ◌∙◌, subst, Option, List, [], ◌∷◌, map, arith, All, keep,
  All-append,
}
use mathlib.Core.List.{reverse, reverse-append}
use apex_store.Base.Bytes.{Bytes}
use apex_store.Base.Dict.{Dict}
use apex_store.Base.Sorted.{sort_by_key}
use apex_store.Error.{Result, ok, err}
use apex_store.Merge.{merged, heap_of}
use apex_store.Record.{RangeTombstone}
use apex_store.Version.{SstPath, SstFile, Files, Table, from_sstable_path, table_iter}
use apex_store.Compaction.{Builder, merge_data, survives, execute_compaction}

-- The table was made by reading a file's metadata.
abbrev pub IsLoaded : Table → Type 0
IsLoaded t = (files : Files) × (path : SstPath) × (from_sstable_path files path ≡ ok t)

data-loaded :
    (r : Result SstFile) (path : SstPath) (t : Table)
    → from_sstable_path (λ p. r) path ≡ ok t
    → t.data_map ≡ []
unfolding from_sstable_path
data-loaded (ok file) path t h = ground (arith, h)
data-loaded (err e) path t h = cc h

loaded-empty : (t : Table) → IsLoaded t → t.data_map ≡ []
loaded-empty t (files, path, h) = data-loaded (files path) path t (unfold from_sstable_path in h)

AllEmpty-iters :
    (ts : List Table) → All IsLoaded ts → All (λ (l : Dict Bytes Bytes). l ≡ []) (map table_iter ts)
unfolding table_iter
AllEmpty-iters [] h = tt
AllEmpty-iters (t ∷ ts) h =
    (ap sort_by_key (loaded-empty t h.0) ∙ (sort-nil), AllEmpty-iters ts h.1)
  where
    sort-nil : sort_by_key {V = Bytes} [] ≡ []
    sort-nil = unfold sort_by_key in refl

heap_of-empty : (i : ℕ) (ls : List (Dict Bytes Bytes)) → All (λ l. l ≡ []) ls → heap_of i ls ≡ []
unfolding heap_of
heap_of-empty i [] h = refl
heap_of-empty i ([] ∷ ls) h = heap_of-empty (suc i) ls h.1
heap_of-empty i ((p ∷ l) ∷ ls) h = absurd (cc (h.0))

merged-empty : (ls : List (Dict Bytes Bytes)) → All (λ l. l ≡ []) ls → merged ls ≡ []
unfolding merged
merged-empty ls h = rw (heap_of-empty 0 ls h) refl

All-reverse {ℓ κ} : {A : Type ℓ} (P : A → Type κ) (xs : List A) → All P xs → All P (reverse xs)
All-reverse P [] h = tt
All-reverse P (x ∷ xs) h =
    subst (All P) (sym (reverse-append (x ∷ []) xs))
      (All-append P (reverse xs) (x ∷ []) (All-reverse P xs h.1) (h.0, tt))

merge_data-loaded :
    (ts : List Table) (tombstones : List RangeTombstone)
    → All IsLoaded ts
    → merge_data ts tombstones ≡ []
unfolding merge_data
merge_data-loaded ts tombstones h = ap (keep (survives tombstones) (λ (p : Bytes × Bytes). p)) (
    merged-empty (map table_iter (reverse ts))
      (AllEmpty-iters (reverse ts) (All-reverse IsLoaded ts h)))

-- A compaction of tables that were loaded from their files, as all are after a restart, succeeds
-- and has no output, whatever the files hold, where the clock can be read and the output file created.
pub execute_compaction-loaded :
    (b : Builder) (prefix : String) (level : Option ℕ) (ts : List Table)
    (tombstones : List RangeTombstone) (files : Files)
    → b.created ≡ ok tt
    → All IsLoaded ts
    → execute_compaction b prefix level ts tombstones files ≡ ok []
unfolding execute_compaction
execute_compaction-loaded b prefix level [] tombstones files c h = refl
execute_compaction-loaded b prefix level (t ∷ ts) tombstones files c h =
    rw (c, merge_data-loaded (t ∷ ts) tombstones h) refl
