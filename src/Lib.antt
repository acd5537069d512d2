-- ===== src/Lib.antt =====
-- A model of ApexStore, an embedded LSM-tree key-value store, and what is proved of it.
--
-- A write goes to the log of its column family and then to the newest memtable (src/core/memtable.rs);
-- a memtable that is full is flushed to an SSTable, which the version set (src/core/engine/version_set.rs)
-- keeps with the older ones. A read asks the memtables, then the tables, newest first, and range
-- tombstones hide what is older than they are. Compaction merges groups of tables into one through the
-- merge iterator (src/core/iterators.rs). A restart replays the logs.
--
-- The files:
--   Base and its modules: Boolean tests, lists over the native numbers, byte strings with Rust's order
--     on them, dictionaries (HashMap, DashMap, moka) and their sorting (BTreeMap, sort_by).
--   Error: src/infra/error.rs. Record: src/core/log_record.rs. MemTable: src/core/memtable.rs.
--   Merge: the merge iterator. Version: src/core/table.rs and src/core/engine/version_set.rs.
--   Compaction: src/core/engine/compaction.rs.
--   Engine: the state behind the lock of src/core/engine/mod.rs, with Engine/Write for
--     put_cf_with_ttl_inner, delete_cf, delete_range_cf and the batches, Engine/Flush for
--     flush_memtable_impl, Engine/Read for get_cf, Engine/Prefix for prefix_end, and Engine/Replay
--     for replay_wal_records_core.
--     Engine/Lookup, Point, Logged, Same, Put, Indexed, Deleted, Range, Recover, Flushed, Failed and
--     Batch hold the proofs.
--     In Engine/Write, put_cf_with_ttl_inner and delete_locked are the part of the source's function up
--     to the end of its locks; put_with_indexes and delete_cf go on with what follows.
--   Transaction: src/core/engine/transaction.rs; Transaction/Buffered and Committed hold the proofs.
--   Encryption: src/storage/encryption.rs.
--   Wal: the writing side of src/storage/wal.rs, with Wal/Recover for recover_locked and its buffered
--     reader and Wal/Dedup for deduplicate_records. Wal/Ends, Frames, Stored, Recovered, Effects, Runs,
--     LastIndex, Deduped, Lost and Restart hold the proofs.
--   Block: src/storage/block.rs, and Block/Prefix for src/storage/prefix_compression.rs. Block/Layout,
--     Compressed, Restored, Encoded, Built, RoundTrip and Panics hold the proofs.
--   Crdt: src/infra/crdt.rs, but for its set; Crdt/Laws holds the proofs.
--   CircuitBreaker: src/infra/resilience/circuit_breaker.rs.
--   Tests: the theorems at concrete inputs.
-- A definition has the name of the function it models. A function that changes its object takes the
-- state as its last argument and returns the new one, after its result if it has one; an operation of
-- the engine that can fail returns the state that the failure leaves.
--
-- Parameters: the readings of the clock; whether each write to disk succeeds (the record Env); the
-- bloomfilter crate, as the function that makes a filter's test from its keys; what the admission and
-- the eviction of moka leave of the value cache; what the search for indexed fields leaves of it, which entries the secondary indexes have for a value,
-- and their removal; the contents of the
-- SSTable files, as a function from names to records; postcard and crc32fast (the record Formats
-- of Wal), AES-GCM and the random nonces (Aes). The engine takes a log as the list of its records;
-- Wal has its bytes, and Wal/Restart joins the two. An operation runs from one state to the next:
-- the interleavings of threads between the phases of a write are not modelled. Bytes are counted
-- without the wrap-around of usize. A column family without a log in the map has no log file yet: the
-- start opens the logs that exist. The families "" and "default", which share a file, are two here.
--
-- The merge iterator's loops run on fuel: the number of steps left in its iterators. Every round
-- advances one of them, so this is enough. The loop of a log's recovery has one round for each byte of
-- the file and one more.
--
-- Not modelled: the builder and the reader of SSTables and their compression, but for the tests with
-- which the builder refuses entries; errors in reading a log; retain, archive and
-- the migration of logs; scans; the searches in secondary indexes; replication, change events and metrics, which
-- follow a write outside the lock; the observed-remove set of src/infra/crdt.rs; the other
-- services of src/infra; the HTTP interface, the notes application, the command line and the web
-- frontend.
pub mod Base
pub mod Error
pub mod Encryption
pub mod Wal
pub mod Transaction
pub mod Block
pub mod Record
pub mod MemTable
pub mod Merge
pub mod Version
pub mod Compaction
pub mod Engine
pub mod CircuitBreaker
pub mod Crdt
pub mod Tests
