-- ===== src/Tests/Tables.antt =====
-- The theorems on memtables, merges, tables and compaction at concrete inputs.
use apex_store.Base.{
  ℕ, ◌≡◌, refl, Bool, true, false, Option, none, some, List, [], ◌∷◌, arith, string_eq,
}
use mathlib.Core.List.{reverse}
use apex_store.Base.Bytes.{Bytes, bytes_eq, bytes_lt, bytes_beq}
use apex_store.Base.Dict
use apex_store.Base.Dict.{get-insert_self}
use apex_store.Base.Dict.{Dict}
use apex_store.Base.Sorted.{sort_by_key, insert_sorted, IsAscending}
use apex_store.Error.{ok, err, io}
use apex_store.Record.{LogRecord, RangeTombstone}
use apex_store.MemTable
use apex_store.MemTable.{
  MemTable, insert, iter_ordered, newest_covering, should_flush, new_unlimited, estimate_size,
}
use apex_store.MemTable.Size.{IsAccounted, total, insert-IsAccounted}
use apex_store.MemTable.Order.{iter_ordered_snapshot}
use apex_store.MemTable.Cover.{IsNewest, newest_covering-IsNewest}
use apex_store.Merge.{merged}
use apex_store.Merge.Collect.{first_version, merged_lem}
use apex_store.Version
use apex_store.Version.{
  Files, SstFile, SstPath, Table, VersionSet, build, add_table, search_tables, tables_of,
  from_sstable_path,
}
use apex_store.Version.Cached.{cached_answer, get-repeat}
use apex_store.Version.Newest.{stored_answer, HasNoFalseNegatives, get-add_build}
use apex_store.Compaction.{Builder, merge_data, execute_compaction}
use apex_store.Compaction.Lookup.{newest_version, compacted_version, get-merge_data}
use apex_store.Compaction.Loaded.{IsLoaded, execute_compaction-loaded}

abbrev some_record : ℕ → LogRecord
some_record t = record {
  key = 1 ∷ [];
  value = 7 ∷ [];
  timestamp = t;
  is_deleted = false;
  column_family = none;
  expires_at = none;
  range_start = none;
  range_end = none;
}

abbrev some_memtable : MemTable
some_memtable = record {
  data_map = (1 ∷ [], some_record 5) ∷ [];
  size_bytes = 53;
  max_size_bytes = 0;
  range_tombstones = [];
}

insert-IsAccounted_example : IsAccounted (insert (some_record 6) some_memtable)
unfolding total estimate_size
insert-IsAccounted_example = insert-IsAccounted (some_record 6) some_memtable refl (omega arith)

iter_ordered_snapshot_example :
    IsAscending (iter_ordered some_memtable)
    × ((k : Bytes) → Dict.get k (iter_ordered some_memtable) ≡ MemTable.get k some_memtable)
unfolding Dict.get
iter_ordered_snapshot_example = iter_ordered_snapshot some_memtable (refl, tt)

abbrev some_range : ℕ → RangeTombstone
some_range t = record { start_key = 0 ∷ []; end_key = 5 ∷ []; timestamp = t }

newest_covering-IsNewest_example :
    IsNewest
      (1 ∷ [])
      (some_range 4 ∷ some_range 3 ∷ [])
      (newest_covering (1 ∷ []) (some_range 4 ∷ some_range 3 ∷ []))
newest_covering-IsNewest_example =
    newest_covering-IsNewest (1 ∷ []) (some_range 4 ∷ some_range 3 ∷ [])

abbrev two_lists : List (Dict Bytes ℕ)
two_lists = ((1 ∷ [], 10) ∷ (2 ∷ [], 20) ∷ []) ∷ ((2 ∷ [], 21) ∷ (3 ∷ [], 30) ∷ []) ∷ []

merged_lem_example :
    IsAscending (merged two_lists)
    × ((k : Bytes) → Dict.get k (merged two_lists) ≡ first_version k two_lists)
unfolding bytes_lt
merged_lem_example = merged_lem two_lists (((refl, tt), (tt, tt)), (((refl, tt), (tt, tt)), tt))

abbrev some_map : Dict Bytes Bytes
some_map = (2 ∷ [], 9 ∷ []) ∷ (1 ∷ [], []) ∷ []

abbrev no_bloom : List Bytes → Option (Bytes → Bool)
no_bloom keys = none

no_bloom-HasNoFalseNegatives : HasNoFalseNegatives no_bloom
no_bloom-HasNoFalseNegatives keys check h k found = cc h

abbrev no_files : Files
no_files path = err io

abbrev some_tables : VersionSet
some_tables = record {
  kv_cache = [];
  evicts = λ cache. cache;
  tables = ("default", build no_bloom some_map ∷ []) ∷ [];
  has_block_cache = true;
  compaction_generation = 0;
  quarantined = [];
}

get-add_build_example :
    (Version.get no_files 0 "default"
      (3 ∷ [])
      (add_table "default" (build no_bloom some_map) some_tables)).0
    ≡ elim (stored_answer (Dict.get (3 ∷ []) some_map)) [
      | none ↦
          (search_tables no_files 0
            (3 ∷ [])
            (reverse (tables_of some_tables "default"))
            (add_table "default" (build no_bloom some_map) some_tables)).0
      | some a ↦ a
    ]
unfolding Dict.get bytes_beq
get-add_build_example =
    get-add_build no_bloom no_bloom-HasNoFalseNegatives some_map (refl, (refl, tt)) no_files 0
      "default" (3 ∷ []) some_tables

some_hit : (Version.get no_files 0 "default" (2 ∷ []) some_tables).0 ≡ some (9 ∷ [])
unfolding Version.get build sort_by_key insert_sorted bytes_lt bytes_beq Dict.get
some_hit = refl

get-repeat_example :
    Version.get no_files 9 "other"
      (2 ∷ [])
      (Version.get no_files 0 "default" (2 ∷ []) some_tables).1
    ≡ (cached_answer (9 ∷ []), (Version.get no_files 0 "default" (2 ∷ []) some_tables).1)
get-repeat_example =
    get-repeat no_files no_files 0 9 "default" "other" (2 ∷ []) (9 ∷ []) some_tables
      (λ k v m. get-insert_self k v m) some_hit

get-merge_data_example :
    Dict.get (2 ∷ []) (merge_data (build no_bloom some_map ∷ []) (some_range 3 ∷ []))
    ≡ compacted_version
        (some_range 3 ∷ [])
        (2 ∷ [])
        (newest_version (2 ∷ []) (reverse (build no_bloom some_map ∷ [])))
unfolding Dict.get build bytes_beq
get-merge_data_example =
    get-merge_data (build no_bloom some_map ∷ []) (some_range 3 ∷ []) (2 ∷ [])
      ((refl, (refl, tt)), tt)

abbrev one_file : Files
one_file path = ok (record { records = (1 ∷ [], some_record 5) ∷ []; bloom = none })

abbrev some_path : SstPath
some_path = ("default", 5)

abbrev loaded_table : Table
loaded_table = record {
  data_map = [];
  level = 1;
  path = some some_path;
  min_key = 1 ∷ [];
  max_key = 1 ∷ [];
  bloom_filter = none;
}

loaded_table-IsLoaded : IsLoaded loaded_table
unfolding from_sstable_path
loaded_table-IsLoaded = (one_file, some_path, refl)

abbrev some_builder : Builder
some_builder = record { created = ok tt; outcome = ok tt; new_bloom = no_bloom; now = 9 }

execute_compaction-loaded_example :
    execute_compaction some_builder "default_sst" none (loaded_table ∷ []) [] one_file ≡ ok []
execute_compaction-loaded_example =
    execute_compaction-loaded some_builder "default_sst" none (loaded_table ∷ []) [] one_file refl
      (loaded_table-IsLoaded, tt)
