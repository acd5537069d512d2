-- ===== src/Engine/Flush.antt =====
-- `flush_memtable_impl` of core/engine/mod.rs.
use apex_store.Base.{
  ℕ, String, Bool, true, false, not, ◌&&◌, Option, none, some, List, [], ◌∷◌, ◌++◌, map, keep, ltb,
  if◌then◌else◌, ◌==◌, pair_eq, nat_eq, string_eq,
}
use apex_store.Base.Bytes.{Bytes, bytes_lt, bytes_eq}
use apex_store.Base.Words.{le_bytes}
use apex_store.Base.Dict
use apex_store.Base.Dict.{Dict}
use apex_store.Base.Sorted.{sort_by_key}
use apex_store.Error.{
  Result, ok, err, invalid_argument, invalid_sstable_format, compaction_failed, guard, ◌>>=◌, ◌>>◌,
}
use apex_store.Record
use apex_store.Record.{LogRecord, is_expired_at}
use apex_store.MemTable.{MemTable}
use apex_store.Version.{
  SstPath, SstFile, Files, add_table, table_count, from_sstable_path, is_empty,
}
use apex_store.Block
use apex_store.Wal.{coded}
use apex_store.Engine.{EngineOptions, EngineCore, Env, memtables_of, set_log, wal_handle}

-- b"__ttl:"
abbrev pub ttl_prefix : Bytes
ttl_prefix = 95 ∷ 95 ∷ 116 ∷ 116 ∷ 108 ∷ 58 ∷ []

abbrev pub ttl_key : Env → Bytes → Bytes
ttl_key env key = ttl_prefix ++ env.lossy key

unfoldable pub starts_with : Bytes → Bytes → Bool
starts_with [] bs = true
starts_with (p ∷ ps) [] = false
starts_with (p ∷ ps) (b ∷ bs) = p == b && starts_with ps bs

-- The record of the TTL side entry.
unfoldable pub ttl_record : Env → Bytes → ℕ → LogRecord
unfolding Record.new le_bytes
ttl_record env key expires = Record.new env.second_now (ttl_key env key) (le_bytes 16 expires)

-- The loop that interleaves the live records with their TTL entries.
unfoldable pub with_ttl_entries : Env → Dict Bytes LogRecord → Dict Bytes LogRecord
unfolding ttl_record is_expired_at
with_ttl_entries env [] = []
with_ttl_entries env ((k, r) ∷ m) =
    let rest = with_ttl_entries env m in
    if is_expired_at r env.now_flush then rest else elim r.expires_at [
      | none ↦ (k, r) ∷ rest
      | some e ↦ (k, r) ∷ (ttl_key env k, ttl_record env k e) ∷ rest
    ]

unfoldable pub combined_records : Env → MemTable → Dict Bytes LogRecord
unfolding with_ttl_entries sort_by_key
combined_records env mem = sort_by_key (with_ttl_entries env (sort_by_key mem.data_map))

-- An entry has its place in a block, the current one or else an empty one: an entry that an empty
-- block does not take fits in no other.
unfoldable pub placed : Env → Bytes → LogRecord → Result (Unit {0})
unfolding coded
placed env key r = do
  value ← coded (env.encode_record r)
  guard (Block.add key value (Block.new env.block_size)).0 compaction_failed

-- A key comes after the one that was added before it.
unfoldable pub comes_after : Option Bytes → Bytes → Bool
comes_after none key = true
comes_after (some before) key = bytes_lt before key

-- `SstableBuilder::add` of each entry in turn.
unfoldable pub add_entries : Env → Option Bytes → Dict Bytes LogRecord → Result (Unit {0})
unfolding comes_after placed
add_entries env before [] = ok tt
add_entries env before ((k, r) ∷ m) =
    let rest = add_entries env (some k) m in
    guard (comes_after before k) invalid_sstable_format >> placed env k r >> rest

-- The in-memory values of the new table: the live records, and the TTL entries.
unfoldable pub raw_values : Env → Dict Bytes LogRecord → Dict Bytes Bytes
unfolding is_expired_at
raw_values env m = keep (λ p. not (is_expired_at p.1 env.now_flush)) (λ p. (p.0, p.1.value)) m

unfoldable pub insert_ttl_values : Dict Bytes LogRecord → Dict Bytes Bytes → Dict Bytes Bytes
unfolding starts_with
insert_ttl_values [] m = m
insert_ttl_values ((k, r) ∷ rs) m =
    insert_ttl_values rs (if starts_with ttl_prefix k then Dict.insert k r.value m else m)

abbrev pub flush_path : Env → SstPath
flush_path env = ("flush", env.now_flush)

-- Creating the file, adding the records, and finishing the file, which fails without a block. The
-- records are those that the file gives back as long as its blocks have at most 64 KiB, where the
-- lengths of an entry's parts are not cut off.
unfoldable pub build_file : Env → Dict Bytes LogRecord → Result SstFile
unfolding add_entries
build_file env combined = do
  env.sst_create
  add_entries env none combined
  guard (not (is_empty combined)) compaction_failed
  env.sst_write
  ok (record { records = combined; bloom = env.new_bloom (map (λ p. p.0) combined) })

abbrev pub write_file : SstPath → SstFile → Files → Files
write_file path file files p = if p == path then ok file else files p

-- The last memtable and those before it.
unfoldable pub pop_last {ℓ} : {A : Type ℓ} → List A → Option (List A × A)
pop_last [] = none
pop_last (x ∷ xs) = elim (pop_last xs) [
  | none ↦ some ([], x)
  | some (before, last) ↦ some (x ∷ before, last)
]

-- The end of a flush: the byte count and the log are reset.
unfoldable pub finish_flush : EngineOptions → Env → String → EngineCore → Result Bool × EngineCore
unfolding table_count wal_handle
finish_flush opts env cf core = elim (Dict.get cf core.memtable_bytes) [
  | none ↦ (err invalid_argument, core)
  | some n ↦
      let reset = record core { memtable_bytes = Dict.insert cf 0 core.memtable_bytes } in
      let (opened, core') = wal_handle env cf reset in
      elim opened [
        | err e ↦ (err e, core')
        | ok u ↦ elim env.wal_clear [
          | err e ↦ (err e, core')
          | ok w ↦ (
            ok (ltb opts.compaction_threshold (table_count cf core.version_set)),
            set_log cf [] core',
          )
        ]
      ]
]

unfoldable pub install_table :
    EngineOptions → Env → String → MemTable → SstFile → EngineCore → Result Bool × EngineCore
unfolding finish_flush add_table from_sstable_path raw_values insert_ttl_values
install_table opts env cf mem file core =
    let files = write_file (flush_path env) file core.files in
    let written = record core { files = files } in
    elim (env.sst_open >> from_sstable_path (λ p. ok file) (flush_path env)) [
      | err e ↦ (err e, written)
      | ok t ↦
          let table = record t {
            data_map = insert_ttl_values file.records (raw_values env mem.data_map);
            level = 0;
          } in
          finish_flush opts env cf
            (record written { version_set = add_table cf table core.version_set })
    ]

-- A memtable of range tombstones alone only syncs the log.
unfoldable pub sync_only : Env → String → EngineCore → Result Bool × EngineCore
unfolding wal_handle
sync_only env cf core =
    let (opened, core') = wal_handle env cf core in
    elim opened [
      | err e ↦ (err e, core')
      | ok u ↦ elim env.wal_sync [ err e ↦ (err e, core') | ok w ↦ (ok false, core') ]
    ]

unfoldable pub flush_memtable_impl :
    EngineOptions → Env → String → EngineCore → Result Bool × EngineCore
unfolding pop_last build_file combined_records install_table sync_only
flush_memtable_impl opts env cf core = elim (pop_last (memtables_of core cf)) [
  | none ↦ (ok false, core)
  | some (before, mem) ↦
      if is_empty mem.data_map
      then sync_only env cf core
      else let popped = record core { memtables = Dict.insert cf before core.memtables } in
        elim (build_file env (combined_records env mem)) [
          | err e ↦ (err e, popped)
          | ok file ↦ install_table opts env cf mem file popped
        ]
]
