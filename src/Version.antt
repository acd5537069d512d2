-- ===== src/Version.antt =====
-- core/table.rs and core/engine/version_set.rs: the tables of each column family and lookups in
-- them. An SSTable file is the list of records that `SstableBuilder` was given, in key order, with
-- its Bloom filter; `Err` stands for a file that cannot be opened or read. A Bloom filter of the
-- `bloomfilter` crate is its `check` function.
-- The `moka` cache is a dictionary that may drop entries whenever one is put in it.
pub mod Cached
pub mod Newest
use apex_store.Base.{
  ℕ, ◌+◌, String, ◌≡◌, Bool, true, false, not, ◌&&◌, ◌||◌, Option, none, some, List, [], ◌∷◌, ◌++◌,
  map, length, if◌then◌else◌, ◌==◌, pair_eq, nat_eq, string_eq,
}
use mathlib.Core.List.{reverse}
use apex_store.Base.Bytes.{Bytes, bytes_lt, bytes_eq}
use apex_store.Base.Dict
use apex_store.Base.Dict.{Dict}
use apex_store.Base.Sorted.{sort_by_key}
use apex_store.Error.{LsmError, Result, ok, err, io, invalid_sstable_format, ◌>>=◌}
use apex_store.Record
use apex_store.Record.{LogRecord, is_expired_at}

-- A file name: the part before the timestamp, and the timestamp.
abbrev pub SstPath : Type 0
SstPath = String × ℕ

pub record SstFile : Type 0 where
  pub records : Dict Bytes LogRecord
  pub bloom : Option (Bytes → Bool)

abbrev pub Files : Type 0
Files = SstPath → Result SstFile

pub record Table : Type 0 where
  pub data_map : Dict Bytes Bytes
  pub level : ℕ
  pub path : Option SstPath
  pub min_key : Bytes
  pub max_key : Bytes
  pub bloom_filter : Option (Bytes → Bool)

abbrev pub is_empty {ℓ} : {A : Type ℓ} → List A → Bool
is_empty [] = true
is_empty (x ∷ xs) = false

-- The first and the last key of a sorted list; empty for the empty list.
unfoldable pub first_key {ℓ} : {V : Type ℓ} → Dict Bytes V → Bytes
first_key [] = []
first_key ((k, v) ∷ m) = k

unfoldable pub last_from {ℓ} : {V : Type ℓ} → Bytes → Dict Bytes V → Bytes
last_from b [] = b
last_from b ((k, v) ∷ m) = last_from k m

unfoldable pub last_key {ℓ} : {V : Type ℓ} → Dict Bytes V → Bytes
unfolding last_from
last_key [] = []
last_key ((k, v) ∷ m) = last_from k m

-- `Table::build`; `new_bloom` makes the filter for a list of keys.
unfoldable pub build : (List Bytes → Option (Bytes → Bool)) → Dict Bytes Bytes → Table
unfolding first_key last_key
build new_bloom m = record {
  data_map = m;
  level = 0;
  path = none;
  min_key = first_key (sort_by_key m);
  max_key = last_key (sort_by_key m);
  bloom_filter = if is_empty m then none else new_bloom (map (λ p. p.0) (sort_by_key m));
}

unfoldable pub from_sstable_path : Files → SstPath → Result Table
unfolding first_key last_key
from_sstable_path files path = do
  file ← files path
  ok (record {
    data_map = [];
    level = 1;
    path = some path;
    min_key = first_key file.records;
    max_key = last_key file.records;
    bloom_filter = file.bloom;
  })

-- `Table::iter`: the pairs in key order.
unfoldable pub table_iter : Table → Dict Bytes Bytes
table_iter t = sort_by_key t.data_map

unfoldable pub size_of_pairs : Dict Bytes Bytes → ℕ
size_of_pairs [] = 0
size_of_pairs ((k, v) ∷ m) = length k + length v + size_of_pairs m

unfoldable pub table_size : Table → ℕ
unfolding size_of_pairs
table_size t = size_of_pairs t.data_map

pub record VersionSet : Type 0 where
  pub kv_cache : Dict Bytes Bytes
  -- what the admission and the eviction of `moka` leave of the cache
  pub evicts : Dict Bytes Bytes → Dict Bytes Bytes
  pub tables : Dict String (List Table)
  pub has_block_cache : Bool
  pub compaction_generation : ℕ
  pub quarantined : List SstPath

abbrev pub tables_of : VersionSet → String → List Table
tables_of vs cf = elim (Dict.get cf vs.tables) [ none ↦ [] | some ts ↦ ts ]

unfoldable pub get_cached : VersionSet → Bytes → Option Bytes
get_cached vs key = Dict.get key vs.kv_cache

unfoldable pub put_cached : Bytes → Bytes → VersionSet → VersionSet
put_cached key value vs = record vs { kv_cache = vs.evicts (Dict.insert key value vs.kv_cache) }

unfoldable pub clear_cache : VersionSet → VersionSet
clear_cache vs = record vs { kv_cache = [] }

unfoldable pub contains_path : SstPath → List SstPath → Bool
contains_path p [] = false
contains_path p (q ∷ qs) = q == p || contains_path p qs

unfoldable pub is_quarantined : VersionSet → SstPath → Bool
unfolding contains_path
is_quarantined vs path = contains_path path vs.quarantined

-- The two range tests: `get` skips only with both bounds known, `get_record` with either.
unfoldable pub outside_both : Table → Bytes → Bool
outside_both t key =
    not (is_empty t.min_key)
    && not (is_empty t.max_key)
    && (bytes_lt key t.min_key || bytes_lt t.max_key key)

unfoldable pub outside_either : Table → Bytes → Bool
outside_either t key =
    (not (is_empty t.min_key) && bytes_lt key t.min_key)
    || (not (is_empty t.max_key) && bytes_lt t.max_key key)

unfoldable pub bloom_rejects : Table → Bytes → Bool
bloom_rejects t key = elim t.bloom_filter [ none ↦ false | some check ↦ not (check key) ]

-- `SstableReader::open_with_encryption` and `get` on the file.
unfoldable pub read_file : Files → SstPath → Bytes → Result (Option LogRecord)
read_file files path key = do file ← files path; ok (Dict.get key file.records)

-- The loop of `get` goes on to the next table, or returns.
pub data Probe : Type 0 where
  next_table : VersionSet → Probe
  returns : Option Bytes → VersionSet → Probe

-- What the read of a table's file leads to.
unfoldable pub after_read : ℕ → Bytes → SstPath → Result (Option LogRecord) → VersionSet → Probe
unfolding is_expired_at put_cached
after_read now key path (err e) vs = next_table (record vs { quarantined = path ∷ vs.quarantined })
after_read now key path (ok none) vs = next_table vs
after_read now key path (ok (some r)) vs =
    if r.is_deleted
    then returns none vs
    else if is_expired_at r now
    then next_table vs
    else returns (some r.value) (put_cached key r.value vs)

unfoldable pub probe_file : Files → ℕ → Bytes → Option SstPath → VersionSet → Probe
unfolding after_read is_quarantined read_file
probe_file files now key none vs = next_table vs
probe_file files now key (some path) vs =
    if is_quarantined vs path
    then next_table vs
    else if vs.has_block_cache
    then after_read now key path (read_file files path key) vs
    else next_table vs

unfoldable pub probe_data : Files → ℕ → Bytes → Table → Option Bytes → VersionSet → Probe
unfolding probe_file put_cached
probe_data files now key t none vs = probe_file files now key t.path vs
probe_data files now key t (some []) vs = elim t.path [
  | none ↦ returns none vs
  | some path ↦ probe_file files now key (some path) vs
]
probe_data files now key t (some (b ∷ bs)) vs = returns (some (b ∷ bs)) (put_cached key (b ∷ bs) vs)

-- One round of the loop of `get`.
unfoldable pub probe : Files → ℕ → Bytes → Table → VersionSet → Probe
unfolding probe_data outside_both bloom_rejects
probe files now key t vs =
    if outside_both t key
    then next_table vs
    else if bloom_rejects t key
    then next_table vs
    else probe_data files now key t (Dict.get key t.data_map) vs

unfoldable pub search_tables :
    Files → ℕ → Bytes → List Table → VersionSet → Option Bytes × VersionSet
unfolding probe
search_tables files now key [] vs = (none, vs)
search_tables files now key (t ∷ ts) vs = elim (probe files now key t vs) [
  | next_table vs' ↦ search_tables files now key ts vs'
  | returns found vs' ↦ (found, vs')
]

-- `VersionSet::get`: the cache, then the tables from the newest.
unfoldable pub get : Files → ℕ → String → Bytes → VersionSet → Option Bytes × VersionSet
unfolding search_tables get_cached
get files now cf key vs = elim (get_cached vs key) [
  | some [] ↦ (none, vs)
  | some (b ∷ bs) ↦ (some (b ∷ bs), vs)
  | none ↦ search_tables files now key (reverse (tables_of vs cf)) vs
]

-- A value of a table without a file, as a record older than all.
unfoldable pub legacy_record : Bytes → Bytes → LogRecord
unfolding Record.new
legacy_record key value = record (Record.new 0 key value) { is_deleted = is_empty value }

unfoldable pub open_record_reader : Files → VersionSet → SstPath → Result SstFile
unfolding is_quarantined
open_record_reader files vs path =
    if is_quarantined vs path then err invalid_sstable_format else files path

unfoldable pub get_record_in : Files → VersionSet → Bytes → List Table → Result (Option LogRecord)
unfolding open_record_reader legacy_record outside_either bloom_rejects
get_record_in files vs key [] = ok none
get_record_in files vs key (t ∷ ts) =
    let rest = get_record_in files vs key ts in
    if outside_either t key || bloom_rejects t key then rest else elim t.path [
      | some path ↦ do
        file ← open_record_reader files vs path
        elim (Dict.get key file.records) [ some r ↦ ok (some r) | none ↦ rest ]
      | none ↦ elim (Dict.get key t.data_map) [
        | some value ↦ ok (some (legacy_record key value))
        | none ↦ rest
      ]
    ]

-- `VersionSet::get_record`
unfoldable pub get_record : Files → String → Bytes → VersionSet → Result (Option LogRecord)
unfolding get_record_in
get_record files cf key vs = get_record_in files vs key (reverse (tables_of vs cf))

unfoldable pub add_table : String → Table → VersionSet → VersionSet
unfolding clear_cache
add_table cf t vs = record vs {
  tables = Dict.insert cf (tables_of vs cf ++ t ∷ []) vs.tables;
  kv_cache = [];
  compaction_generation = vs.compaction_generation + 1;
}

unfoldable pub table_count : String → VersionSet → ℕ
table_count cf vs = length (tables_of vs cf)

-- `drain_tables`
unfoldable pub drain_tables : String → VersionSet → List Table × VersionSet
drain_tables cf vs =
    (tables_of vs cf, record vs { tables = Dict.remove cf vs.tables; kv_cache = [] })

-- `remove_and_add_table` leaves the cache as it is.
unfoldable pub remove_and_add_table : String → Table → VersionSet → VersionSet
remove_and_add_table cf t vs = record vs {
  tables = Dict.insert cf (t ∷ []) vs.tables;
  compaction_generation = vs.compaction_generation + 1;
}
