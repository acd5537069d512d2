-- ===== src/Engine.antt =====
-- core/engine/mod.rs: the state behind the engine's lock, and what its operations share.
-- A log file is the list of its records (Wal has the bytes). What an operation meets outside is a
-- record `Env`: the readings of the clock, and whether each write to disk succeeds.
pub mod Flush
pub mod Write
pub mod Read
pub mod Replay
pub mod Lookup
pub mod Point
pub mod Same
pub mod Deleted
pub mod Indexed
pub mod Logged
pub mod Put
pub mod Range
pub mod Recover
pub mod Flushed
pub mod Failed
pub mod Batch
pub mod Prefix
use apex_store.Base.{
  ℕ, zero, suc, ◌+◌, ◌*◌, ◌/◌, ◌%◌, String, Bool, true, false, Option, none, some, List, [], ◌∷◌,
  ◌++◌, string_eq,
}
use apex_store.Base.Bytes.{Bytes}
use apex_store.Base.Dict
use apex_store.Base.Dict.{Dict}
use apex_store.Error.{LsmError, Result, ok, err}
use apex_store.Record.{LogRecord, RangeTombstone}
use apex_store.MemTable
use apex_store.MemTable.{MemTable}
use apex_store.Version.{VersionSet, Files}

pub record EngineOptions : Type 0 where
  pub write_buffer_size : ℕ
  pub max_write_buffer_number : ℕ
  pub default_ttl : Option ℕ
  pub compaction_threshold : ℕ

-- The product without the wrap-around of usize.
abbrev pub write_buffer_limit : EngineOptions → ℕ
write_buffer_limit o = o.write_buffer_size * o.max_write_buffer_number

pub record EngineCore : Type 0 where
  pub memtables : Dict String (List MemTable)
  pub memtable_bytes : Dict String ℕ
  pub version_set : VersionSet
  pub wals : Dict String (List LogRecord)
  pub range_tombstones : Dict String (List RangeTombstone)
  pub files : Files

pub record Env : Type 0 where
  -- the first and the second reading of the clock, and the one that starts a flush
  pub now : ℕ
  pub second_now : ℕ
  pub now_flush : ℕ
  -- the reading of the clock by the lookups that follow a delete
  pub now_after : ℕ
  -- opening a new log; appending to it, and whether a failed append reached the file; its fsync;
  -- its truncation; creating an SSTable, writing its blocks, and opening it
  pub wal_open : Result (Unit {0})
  pub wal_write : Result (Unit {0})
  pub wal_kept : Bool
  pub wal_sync : Result (Unit {0})
  pub wal_clear : Result (Unit {0})
  pub sst_create : Result (Unit {0})
  pub sst_write : Result (Unit {0})
  pub sst_open : Result (Unit {0})
  -- the option `block_size`, and the encoding of infra/codec.rs, which is that of `postcard`
  pub block_size : ℕ
  pub encode_record : LogRecord → Option Bytes
  -- the `bloomfilter` crate, and `String::from_utf8_lossy` as bytes
  pub new_bloom : List Bytes → Option (Bytes → Bool)
  pub lossy : Bytes → Bytes
  -- the removal of a deleted value's entries from the secondary indexes
  pub remove_indexes : String → Bytes → Bytes → EngineCore → EngineCore

abbrev pub memtables_of : EngineCore → String → List MemTable
memtables_of core cf = elim (Dict.get cf core.memtables) [ none ↦ [] | some ms ↦ ms ]

abbrev pub bytes_of : EngineCore → String → ℕ
bytes_of core cf = elim (Dict.get cf core.memtable_bytes) [ none ↦ 0 | some n ↦ n ]

abbrev pub log_of : EngineCore → String → List LogRecord
log_of core cf = elim (Dict.get cf core.wals) [ none ↦ [] | some rs ↦ rs ]

abbrev pub tombstones_of : EngineCore → String → List RangeTombstone
tombstones_of core cf = elim (Dict.get cf core.range_tombstones) [ none ↦ [] | some ts ↦ ts ]

-- `entry(cf).or_default()`, a first memtable if there is none, and a change of the last one.
unfoldable pub update_last : (MemTable → MemTable) → List MemTable → List MemTable
update_last f [] = f MemTable.new_unlimited ∷ []
update_last f (m ∷ []) = f m ∷ []
update_last f (m ∷ n ∷ ms) = m ∷ update_last f (n ∷ ms)

unfoldable pub with_memtable : String → (MemTable → MemTable) → EngineCore → EngineCore
with_memtable cf f core = record core {
  memtables = Dict.insert cf (update_last f (memtables_of core cf)) core.memtables;
}

-- `*memtable_bytes.entry(cf).or_default() += n`, without the wrap-around of usize.
unfoldable pub add_bytes : String → ℕ → EngineCore → EngineCore
add_bytes cf n core = record core {
  memtable_bytes = Dict.insert cf (bytes_of core cf + n) core.memtable_bytes;
}

unfoldable pub add_range : String → RangeTombstone → EngineCore → EngineCore
add_range cf t core = record core {
  range_tombstones = Dict.insert cf (tombstones_of core cf ++ t ∷ []) core.range_tombstones;
}

abbrev pub set_log : String → List LogRecord → EngineCore → EngineCore
set_log cf rs core = record core { wals = Dict.insert cf rs core.wals }

-- `wal_handle` and `wal_mut`: a column family's log is opened at its first use. One that is not in the
-- map is taken to have no file yet, as the start of the engine opens the logs that exist. That the
-- families "" and "default" share a file is left out.
unfoldable pub wal_handle : Env → String → EngineCore → Result (Unit {0}) × EngineCore
wal_handle env cf core = elim (Dict.get cf core.wals) [
  | some rs ↦ (ok tt, core)
  | none ↦ elim env.wal_open [ ok u ↦ (ok tt, set_log cf [] core) | err e ↦ (err e, core) ]
]

-- `write_record` and `write_batch` on an open log; an empty batch writes nothing.
unfoldable pub append_log :
    Env → String → List LogRecord → EngineCore → Result (Unit {0}) × EngineCore
append_log env cf [] core = (ok tt, core)
append_log env cf (r ∷ rs) core = elim env.wal_write [
  | ok u ↦ (ok tt, set_log cf (log_of core cf ++ r ∷ rs) core)
  | err e ↦ elim env.wal_kept [
    | true ↦ (err e, set_log cf (log_of core cf ++ r ∷ rs) core)
    | false ↦ (err e, core)
  ]
]
