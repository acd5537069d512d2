-- ===== src/Wal/Restart.antt =====
-- The log of storage/wal.rs under the replay of core/engine/mod.rs.
use apex_store.Base.{◌≤◌, String, ◌≡◌, ap, ◌∙◌, Option, some, List, ◌++◌, length}
use mathlib.Core.List.{reverse}
use apex_store.Base.Bytes.{Bytes}
use apex_store.Error.{ok}
use apex_store.Merge.Collect.{or_else}
use apex_store.Record.{LogRecord}
use apex_store.Encryption.{Aes}
use apex_store.Engine.{EngineCore, memtables_of}
use apex_store.Engine.Read.{find_record}
use apex_store.Engine.Replay.{replay_wal_records_core}
use apex_store.Engine.Recover.{last_record, recorded-replay}
use apex_store.Wal.{Formats, WriteAheadLog, Disk}
use apex_store.Wal.Recover.{capacity, recover_locked}
use apex_store.Wal.Dedup.{deduplicate_records}
use apex_store.Wal.Deduped.{last_record-deduplicate}
use apex_store.Wal.Stored.{Reliable}
use apex_store.Wal.Recovered.{Works}
use apex_store.Wal.Runs.{Run, recover_locked-Run}

-- After a run of operations that returned without an error, on a log of at most a buffer's bytes,
-- what recovery returns, replayed onto a state, gives every key of every column family the last point
-- record that was written since the last truncation, and where there is none the record of before.
pub replay-recover_locked :
    (f : Formats) (aes : Aes) (disk : Disk) (w : WriteAheadLog) (rs : List LogRecord)
    (core : EngineCore)
    → Reliable f aes
    → Works disk
    → Run f aes w rs
    → length (w.file ++ w.buffered) ≤ capacity
    → (recovered : List LogRecord) × ((recover_locked f aes disk w).0 ≡ some (ok recovered))
      × ((cf : String) (key : Bytes)
          → find_record key (reverse (memtables_of (replay_wal_records_core recovered core) cf))
            ≡ or_else (last_record cf key rs) (find_record key (reverse (memtables_of core cf))))
replay-recover_locked f aes disk w rs core reliable works run small = (
  deduplicate_records rs,
  recover_locked-Run f aes disk w rs reliable works run small,
  (λ cf key.
      recorded-replay cf key (deduplicate_records rs) core
      ∙ ap (λ (o : Option LogRecord). or_else o (find_record key (reverse (memtables_of core cf))))
          ((last_record-deduplicate rs).0 cf key)),
)
