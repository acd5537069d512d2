-- ===== src/Compaction.antt =====
-- core/engine/compaction.rs: picking groups of tables, and merging a group into one table.
pub mod Lookup
pub mod Loaded
use apex_store.Base.{
  ℕ, ◌+◌, ◌*◌, String, ◌≡◌, Bool, true, false, not, ◌&&◌, ◌||◌, Option, none, some, List, [], ◌∷◌,
  ◌++◌, map, length, keep, get_elem?, ltb, leb, if◌then◌else◌, ◌==◌, nat_eq,
}
use mathlib.Core.List.{reverse}
use apex_store.Base.Bytes.{Bytes}
use apex_store.Base.Dict.{Dict}
use apex_store.Error.{Result, ok, err, ◌>>=◌, ◌>>◌}
use apex_store.Record
use apex_store.Record.{LogRecord, RangeTombstone, covers}
use apex_store.Merge.{merged}
use apex_store.Version.{
  SstPath, SstFile, Files, Table, table_iter, table_size, is_empty, from_sstable_path,
}

unfoldable pub is_key_in_range_tombstones : Bytes → List RangeTombstone → Bool
unfolding covers
is_key_in_range_tombstones key [] = false
is_key_in_range_tombstones key (t ∷ ts) = covers t key || is_key_in_range_tombstones key ts

-- The two tests in the loop: an empty value is a deletion, and a covered key is dropped.
unfoldable pub survives : List RangeTombstone → Bytes × Bytes → Bool
unfolding is_key_in_range_tombstones
survives ts p = not (is_empty p.1) && not (is_key_in_range_tombstones p.0 ts)

-- The loop over the merge of the tables, the newest first. The keys come in ascending order, so
-- the `BTreeMap` of the survivors is the list of them.
unfoldable pub merge_data : List Table → List RangeTombstone → Dict Bytes Bytes
unfolding merged table_iter survives
merge_data ts tombstones =
    keep (survives tombstones) (λ p. p) (merged (map table_iter (reverse ts)))

-- The records that the builder is given.
unfoldable pub compacted_records : ℕ → Dict Bytes Bytes → Dict Bytes LogRecord
unfolding Record.new
compacted_records now [] = []
compacted_records now ((k, v) ∷ m) = (k, Record.new now k v) ∷ compacted_records now m

abbrev set_level : Option ℕ → Table → Table
set_level none t = t
set_level (some l) t = record t { level = l }

-- What a compaction meets outside: whether reading the clock and creating the builder succeed, whether
-- its `add`s and its `finish` do, the file's filter, and the time.
pub record Builder : Type 0 where
  pub created : Result (Unit {0})
  pub outcome : Result (Unit {0})
  pub new_bloom : List Bytes → Option (Bytes → Bool)
  pub now : ℕ

unfoldable pub keys_of {ℓ} : {V : Type ℓ} → Dict Bytes V → List Bytes
keys_of m = map (λ p. p.0) m

unfoldable pub output_file : Builder → Dict Bytes Bytes → SstFile
unfolding compacted_records keys_of
output_file b m = record { records = compacted_records b.now m; bloom = b.new_bloom (keys_of m) }

unfoldable pub write_output : Builder → SstPath → Option ℕ → Dict Bytes Bytes → Files → Result Table
unfolding from_sstable_path output_file
write_output b path level m files = do
  b.outcome
  t ← from_sstable_path (λ p. ok (output_file b m)) path
  ok (set_level level (record t { data_map = m }))

-- Returns the new tables; the file that the builder wrote is `output_file`.
unfoldable pub execute_compaction :
    Builder → String → Option ℕ → List Table → List RangeTombstone → Files → Result (List Table)
unfolding merge_data write_output
execute_compaction b prefix level [] tombstones files = ok []
execute_compaction b prefix level (t ∷ ts) tombstones files =
    let m = merge_data (t ∷ ts) tombstones in
    b.created
    >> (if is_empty m
        then ok []
        else do table ← write_output b (prefix, b.now) level m files; ok (table ∷ []))

-- The size class of a table.
unfoldable pub bucket_size : Table → ℕ
unfolding table_size
bucket_size t =
    let size = table_size t in
    if ltb size (64 * 1024)
    then 64 * 1024
    else if ltb size (256 * 1024)
    then 256 * 1024
    else if ltb size (1024 * 1024)
    then 1024 * 1024
    else 18446744073709551615

-- `buckets.iter_mut().find(…)` and the push, or a new bucket at the end.
unfoldable pub into_bucket : ℕ → ℕ → List (ℕ × List ℕ) → List (ℕ × List ℕ)
into_bucket size i [] = (size, i ∷ []) ∷ []
into_bucket size i ((s, is) ∷ buckets) =
    let rest = into_bucket size i buckets in
    if s == size then (s, is ++ i ∷ []) ∷ buckets else (s, is) ∷ rest

unfoldable pub fill_buckets : ℕ → List Table → List (ℕ × List ℕ) → List (ℕ × List ℕ)
unfolding into_bucket bucket_size
fill_buckets i [] buckets = buckets
fill_buckets i (t ∷ ts) buckets = fill_buckets (i + 1) ts (into_bucket (bucket_size t) i buckets)

unfoldable pub group_into_buckets : List Table → ℕ → List (List ℕ)
unfolding fill_buckets
group_into_buckets ts threshold =
    keep (λ b. leb threshold (length b.1)) (λ b. b.1) (fill_buckets 0 ts [])

unfoldable pub l0_indices : ℕ → List Table → List ℕ
l0_indices i [] = []
l0_indices i (t ∷ ts) = let rest = l0_indices (i + 1) ts in if t.level == 0 then i ∷ rest else rest

-- The strategies' `pick_tables`.
pub data Strategy : Type 0 where
  size_tiered : ℕ → Strategy
  leveled : ℕ → Strategy
  lazy_leveling : ℕ → ℕ → Strategy

unfoldable pub pick_leveled : ℕ → List Table → List (List ℕ)
unfolding l0_indices
pick_leveled multiplier ts =
    let l0 = l0_indices 0 ts in if leb multiplier (length l0) then l0 ∷ [] else []

-- Indices out of range are dropped.
unfoldable pub select {ℓ} : {A : Type ℓ} → List A → List ℕ → List A
select xs [] = []
select xs (i ∷ is) =
    let rest = select xs is in elim (get_elem? xs i) [ none ↦ rest | some x ↦ x ∷ rest ]

unfoldable pub pick_lazy : ℕ → ℕ → List Table → List (List ℕ)
unfolding group_into_buckets l0_indices select pick_leveled
pick_lazy min_tables multiplier ts =
    let l0 = l0_indices 0 ts in
    if is_empty l0
    then pick_leveled multiplier ts
    else map (select l0) (group_into_buckets (select ts l0) min_tables)

unfoldable pub pick_tables : Strategy → List Table → List (List ℕ)
unfolding pick_leveled pick_lazy group_into_buckets
pick_tables (size_tiered min_tables) ts = group_into_buckets ts min_tables
pick_tables (leveled multiplier) ts = pick_leveled multiplier ts
pick_tables (lazy_leveling min_tables multiplier) ts = pick_lazy min_tables multiplier ts

unfoldable pub has_l0 : List Table → Bool
has_l0 [] = false
has_l0 (t ∷ ts) = t.level == 0 || has_l0 ts

unfoldable pub execute :
    Strategy → Builder → List Table → List RangeTombstone → Files → Result (List Table)
unfolding execute_compaction has_l0
execute (size_tiered _) b ts tombstones files = execute_compaction b "sst" none ts tombstones files
execute (leveled _) b ts tombstones files =
    execute_compaction b "sst_L1" (some 1) ts tombstones files
execute (lazy_leveling _ _) b ts tombstones files =
    if has_l0 ts
    then execute_compaction b "sst" none ts tombstones files
    else execute_compaction b "sst_L1" (some 1) ts tombstones files

-- `Compaction::compact` on the tables at the indices.
unfoldable pub compact :
    Strategy → Builder → List ℕ → List Table → List RangeTombstone → Files → Result (List Table)
unfolding execute select
compact s b indices all_tables tombstones files =
    let ts = select all_tables indices in
    if is_empty ts then ok [] else execute s b ts tombstones files
