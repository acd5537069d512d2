-- ===== src/Engine/Replay.antt =====
-- `replay_wal_records_core` of core/engine/mod.rs.
use apex_store.Base.{◌+◌, String, Option, none, some, List, [], ◌∷◌, length, if◌then◌else◌}
use apex_store.Base.Bytes.{Bytes}
use apex_store.Record.{LogRecord, RangeTombstone, is_range_tombstone}
use apex_store.MemTable
use apex_store.Engine.{EngineCore, with_memtable, add_bytes, add_range}

abbrev pub family_of : LogRecord → String
family_of r = elim r.column_family [ none ↦ "default" | some cf ↦ cf ]

abbrev pub or_empty : Option Bytes → Bytes
or_empty none = []
or_empty (some b) = b

unfoldable pub replay_one : LogRecord → EngineCore → EngineCore
unfolding with_memtable add_bytes add_range is_range_tombstone MemTable.insert
replay_one r core =
    let cf = family_of r in
    if is_range_tombstone r
    then (let range : RangeTombstone = record {
      start_key = or_empty r.range_start;
      end_key = or_empty r.range_end;
      timestamp = r.timestamp;
    } in
        with_memtable cf (MemTable.add_range_tombstone range) (add_range cf range core))
    else add_bytes cf (length r.key + length r.value) (with_memtable cf (MemTable.insert r) core)

unfoldable pub replay_wal_records_core : List LogRecord → EngineCore → EngineCore
unfolding replay_one
replay_wal_records_core [] core = core
replay_wal_records_core (r ∷ rs) core = replay_wal_records_core rs (replay_one r core)
