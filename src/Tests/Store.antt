-- ===== src/Tests/Store.antt =====
-- The engine's theorems at concrete inputs.
use apex_store.Base.{◌≡◌, refl, true, false, none, some, [], ◌∷◌, ◌++◌, arith, ltb, string_eq}
use mathlib.Core.List.{reverse}
use apex_store.Base.Bytes.{bytes_eq, bytes_lt, bytes_beq}
use apex_store.Base.Dict
use apex_store.Error.{ok, err, io}
use apex_store.Record.{LogRecord, covers}
use apex_store.Merge.Collect.{or_else}
use apex_store.MemTable
use apex_store.MemTable.{MemTable, newest_covering, maximum, max_covering_range_tombstone}
use apex_store.Version
use apex_store.Version.{table_count, contains_path, is_quarantined, VersionSet, clear_cache}
use apex_store.Engine.{EngineOptions, EngineCore, Env, memtables_of, log_of}
use apex_store.Engine.Write.{
  put_record, put_cf_with_ttl_inner, put_with_indexes, searched, delete_cf, delete_range_cf,
}
use apex_store.Engine.Read.{
  visible_value, covering_in, covering_range_tombstone_ts, find_record, get_cf,
}
use apex_store.Engine.Replay.{replay_wal_records_core}
use apex_store.Engine.Logged.{WalWorks}
use apex_store.Engine.Put.{get_cf-put, get_cf-delete}
use apex_store.Engine.Deleted.{IsDeleted, delete_cf-IsDeleted}
use apex_store.Engine.Indexed.{IsStored, put_with_indexes-IsStored}
use apex_store.Engine.Range.{get_cf-delete_range, get_cf-outside_range}
use apex_store.Engine.Flush.{pop_last, starts_with, flush_memtable_impl}
use apex_store.Engine.Flushed.{CanFlush, get-flushed}
use apex_store.Engine.Flushed.File.{IsPlain}
use apex_store.Engine.Recover.{last_record, recorded-replay, recovered-put}

abbrev pub some_options : EngineOptions
some_options = record {
  write_buffer_size = 1000;
  max_write_buffer_number = 2;
  default_ttl = none;
  compaction_threshold = 4;
}

abbrev pub some_env : Env
some_env = record {
  now = 10;
  second_now = 11;
  now_flush = 12;
  now_after = 13;
  wal_open = ok tt;
  wal_write = ok tt;
  wal_kept = false;
  wal_sync = ok tt;
  wal_clear = ok tt;
  sst_create = ok tt;
  sst_write = ok tt;
  sst_open = ok tt;
  block_size = 4096;
  encode_record = λ r. some (r.key ++ r.value);
  new_bloom = λ keys. none;
  lossy = λ bytes. bytes;
  remove_indexes = λ cf key old core. core;
}

abbrev old_record : LogRecord
old_record = record {
  key = 1 ∷ [];
  value = 7 ∷ [];
  timestamp = 5;
  is_deleted = false;
  column_family = none;
  expires_at = none;
  range_start = none;
  range_end = none;
}

abbrev some_tables : VersionSet
some_tables = record {
  kv_cache = [];
  evicts = λ cache. cache;
  tables = [];
  has_block_cache = true;
  compaction_generation = 0;
  quarantined = [];
}

-- One column family with one record, not in the log.
abbrev pub some_core : EngineCore
some_core = record {
  memtables =
      (
        "default",
        record {
          data_map = (1 ∷ [], old_record) ∷ [];
          size_bytes = 53;
          max_size_bytes = 0;
          range_tombstones = [];
        }
            ∷ [],
      )
      ∷ [];
  memtable_bytes = ("default", 2) ∷ [];
  version_set = some_tables;
  wals = [];
  range_tombstones = [];
  files = λ path. err io;
}

abbrev pub fresh_core : EngineCore
fresh_core = record {
  memtables = [];
  memtable_bytes = [];
  version_set = some_tables;
  wals = [];
  range_tombstones = [];
  files = λ path. err io;
}

pub works : WalWorks some_env
works = record { opens = refl; writes = refl }

-- The put is followed by one index entry.
put_with_indexes-IsStored_example :
    let out =
      put_with_indexes some_options some_env "default"
        (2 ∷ [])
        (9 ∷ [])
        (some 100)
        clear_cache
        ((some_env, 3 ∷ []) ∷ [])
        some_core in
    (out.0 ≡ ok false)
    × IsStored "default"
        (put_record some_options some_env "default" (2 ∷ []) (9 ∷ []) (some 100)
          ∷ put_record some_options some_env "default" (3 ∷ []) [] none
          ∷ [])
        3
        (searched clear_cache some_core)
        out.1
unfolding Dict.get
put_with_indexes-IsStored_example =
    put_with_indexes-IsStored some_options some_env "default" (2 ∷ []) (9 ∷ []) (some 100)
      clear_cache ((some_env, 3 ∷ []) ∷ []) some_core (omega arith) (omega arith) works
      (record { wal = works; key_fits = omega arith }, tt) (omega arith)

delete_cf-IsDeleted_example :
    IsDeleted some_env "default"
      (1 ∷ [])
      some_core
      (delete_cf some_options some_env "default" (1 ∷ []) some_core)
unfolding Dict.get bytes_beq
delete_cf-IsDeleted_example =
    delete_cf-IsDeleted some_options some_env "default" (1 ∷ []) some_core works (omega arith) refl

get_cf-put_example :
    (get_cf some_env "default"
      (1 ∷ [])
      (put_cf_with_ttl_inner some_options some_env "default" (1 ∷ []) (9 ∷ []) none some_core).1).0
    ≡ ok (some (9 ∷ []))
unfolding Dict.get covering_range_tombstone_ts newest_covering covering_in maximum
    max_covering_range_tombstone
get_cf-put_example =
    get_cf-put some_options some_env some_env "default" (1 ∷ []) (9 ∷ []) some_core (omega arith)
      (omega arith) works (omega arith) refl refl

get_cf-delete_example :
    (get_cf some_env "default"
      (1 ∷ [])
      (delete_cf some_options some_env "default" (1 ∷ []) some_core).1).0
    ≡ ok none
unfolding Dict.get
get_cf-delete_example =
    get_cf-delete some_options some_env some_env "default" (1 ∷ []) some_core works (omega arith)

get_cf-delete_range_example :
    (get_cf some_env "default"
      (1 ∷ [])
      (delete_range_cf some_env "default" (0 ∷ []) (2 ∷ []) some_core).1).0
    ≡ ok none
unfolding Dict.get find_record MemTable.get covers bytes_lt bytes_beq
get_cf-delete_range_example =
    get_cf-delete_range some_env some_env "default" (0 ∷ []) (2 ∷ []) (1 ∷ []) old_record some_core
      works refl refl (omega arith)

get_cf-outside_range_example :
    (get_cf some_env "default"
      (1 ∷ [])
      (delete_range_cf some_env "default" (2 ∷ []) (3 ∷ []) some_core).1).0
    ≡ (get_cf some_env "default" (1 ∷ []) some_core).0
unfolding covers bytes_lt
get_cf-outside_range_example =
    get_cf-outside_range some_env some_env "default" (2 ∷ []) (3 ∷ []) (1 ∷ []) some_core works refl

recorded-replay_example :
    find_record
      (1 ∷ [])
      (reverse (memtables_of (replay_wal_records_core (old_record ∷ []) fresh_core) "default"))
    ≡ or_else
        (last_record "default" (1 ∷ []) (old_record ∷ []))
        (find_record (1 ∷ []) (reverse (memtables_of fresh_core "default")))
recorded-replay_example = recorded-replay "default" (1 ∷ []) (old_record ∷ []) fresh_core

recovered-put_example :
    find_record (2 ∷ []) (
      reverse (
        memtables_of
          (replay_wal_records_core
            (log_of
              (put_cf_with_ttl_inner some_options some_env "default"
                (2 ∷ [])
                (9 ∷ [])
                none
                some_core).1
              "default")
            fresh_core)
          "default"))
    ≡ some (put_record some_options some_env "default" (2 ∷ []) (9 ∷ []) none)
unfolding Dict.get
recovered-put_example =
    recovered-put some_options some_env "default" (2 ∷ []) (9 ∷ []) none some_core fresh_core
      (omega arith) (omega arith) works (omega arith)

abbrev some_memtable : MemTable
some_memtable = record {
  data_map = (1 ∷ [], old_record) ∷ [];
  size_bytes = 53;
  max_size_bytes = 0;
  range_tombstones = [];
}

some_memtable-IsPlain : IsPlain some_memtable
unfolding Dict.get starts_with
some_memtable-IsPlain = record {
  unique = (refl, tt);
  lasting = (record { forever = refl; own_key = refl; bare = λ gone. cc gone }, tt);
}

can_flush : CanFlush some_env "default" some_core
unfolding Dict.get is_quarantined contains_path
can_flush = record {
  wal = works;
  cleared = refl;
  created = refl;
  written = refl;
  opens = refl;
  short_blocks = omega arith;
  bloom = λ keys check made k found. cc made;
  counted = (2, refl);
  trusted = refl;
  readable = refl;
}

get-flushed_example :
    let out = flush_memtable_impl some_options some_env "default" some_core in
    (out.0 ≡ ok (ltb 4 (table_count "default" out.1.version_set)))
    × ((Version.get out.1.files 20 "default" (1 ∷ []) out.1.version_set).0
        ≡ visible_value none 20 old_record)
unfolding Dict.get pop_last bytes_beq MemTable.get
get-flushed_example =
    get-flushed some_options some_env "default" [] some_memtable some_core (1 ∷ []) old_record 20
      refl some_memtable-IsPlain (record { encoded = (1 ∷ 7 ∷ [], refl); small = omega arith }, tt)
      can_flush refl
