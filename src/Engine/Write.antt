-- ===== src/Engine/Write.antt =====
-- The writes of core/engine/mod.rs. Each returns whether compaction should be tried. Of what follows
-- outside the locks, the lookups after a delete and the index entries after a put are modelled;
-- replication, change events, metrics and the trigger of compaction are not.
use apex_store.Base.{
  ℕ, ◌+◌, ◌*◌, String, Bool, false, Option, none, some, List, [], ◌∷◌, map, length, ltb, leb,
  if◌then◌else◌,
}
use apex_store.Base.Bytes.{Bytes}
use apex_store.Error.{Result, ok, err, invalid_argument}
use apex_store.Record
use apex_store.Record.{LogRecord, RangeTombstone, deadline}
use apex_store.MemTable
use apex_store.MemTable.{MemTable}
use apex_store.Engine.{
  EngineOptions, EngineCore, Env, write_buffer_limit, bytes_of, with_memtable, add_bytes, add_range,
  wal_handle, append_log,
}
use apex_store.Version.{VersionSet}
use apex_store.Engine.Flush.{ttl_key, flush_memtable_impl}
use apex_store.Engine.Read.{get_cf}

abbrev pub max_key_size : ℕ
max_key_size = 4096

abbrev pub max_value_size : ℕ
max_value_size = 16 * 1024 * 1024

abbrev pub in_family : String → LogRecord → LogRecord
in_family cf r = record r { column_family = some cf }

unfoldable pub with_default_ttl : EngineOptions → Env → LogRecord → LogRecord
unfolding deadline
with_default_ttl opts env r = elim r.expires_at [
  | some e ↦ r
  | none ↦ elim opts.default_ttl [
    | none ↦ r
    | some ttl ↦ record r { expires_at = some (deadline env.second_now ttl) }
  ]
]

-- The record that a put logs and inserts.
unfoldable pub put_record : EngineOptions → Env → String → Bytes → Bytes → Option ℕ → LogRecord
unfolding with_default_ttl Record.new Record.new_with_ttl
put_record opts env cf key value ttl = with_default_ttl opts env (
    in_family cf (elim ttl [
      | some t ↦ Record.new_with_ttl env.now key value t
      | none ↦ Record.new env.now key value
    ]))

-- Flush if the column family's bytes reach the limit.
unfoldable pub flush_if_full : EngineOptions → Env → String → EngineCore → Result Bool × EngineCore
unfolding flush_memtable_impl
flush_if_full opts env cf core =
    if leb (write_buffer_limit opts) (bytes_of core cf)
    then flush_memtable_impl opts env cf core
    else (ok false, core)

-- Open the log, append, and go on only if both succeed.
unfoldable pub logged :
    Env
    → String
    → List LogRecord
    → (EngineCore → Result Bool × EngineCore)
    → EngineCore
    → Result Bool × EngineCore
unfolding wal_handle append_log
logged env cf records next core =
    let (opened, core') = wal_handle env cf core in
    elim opened [
      | err e ↦ (err e, core')
      | ok u ↦
          let (written, core'') = append_log env cf records core' in
          elim written [ err e ↦ (err e, core'') | ok w ↦ next core'' ]
    ]

-- The part of a put up to the end of its locks.
unfoldable pub put_cf_with_ttl_inner :
    EngineOptions → Env → String → Bytes → Bytes → Option ℕ → EngineCore → Result Bool × EngineCore
unfolding put_record logged flush_if_full with_memtable add_bytes MemTable.insert
put_cf_with_ttl_inner opts env cf key value ttl core =
    if ltb max_key_size (length key)
    then (err invalid_argument, core)
    else if ltb max_value_size (length value)
    then (err invalid_argument, core)
    else let r = put_record opts env cf key value ttl in
      logged env cf (r ∷ [])
        (λ core'.
          flush_if_full opts env cf
            (add_bytes cf (length key + length value) (with_memtable cf (MemTable.insert r) core')))
        core

-- The loop of `update_indexes`: it puts an empty value under each key of an index entry, up to the
-- first error, which is only logged. An empty value is no JSON, so these puts have no entries of their
-- own.
unfoldable pub put_entries : EngineOptions → String → List (Env × Bytes) → EngineCore → EngineCore
unfolding put_cf_with_ttl_inner
put_entries opts cf [] core = core
put_entries opts cf ((env, entry) ∷ entries) core =
    let (done, core') = put_cf_with_ttl_inner opts env cf entry [] none core in
    elim done [ err e ↦ core' | ok compacts ↦ put_entries opts cf entries core' ]

-- What the search for the indexed fields leaves of the version set, whose cache it can fill; without
-- a search, where the value is no JSON, it leaves it as it is.
abbrev pub searched : (VersionSet → VersionSet) → EngineCore → EngineCore
searched search core = record core { version_set = search core.version_set }

-- `update_indexes` after a put. The search's effect and the entries, that is which fields have an index
-- and what `serde_json` finds in the value, are arguments, with what each entry's put meets outside.
unfoldable pub update_indexes :
    EngineOptions
    → String
    → (VersionSet → VersionSet)
    → List (Env × Bytes)
    → EngineCore
    → EngineCore
unfolding put_entries
update_indexes opts cf search entries core = put_entries opts cf entries (searched search core)

-- A put and the update of the secondary indexes after it.
unfoldable pub put_with_indexes :
    EngineOptions
    → Env
    → String
    → Bytes
    → Bytes
    → Option ℕ
    → (VersionSet → VersionSet)
    → List (Env × Bytes)
    → EngineCore
    → Result Bool × EngineCore
unfolding put_cf_with_ttl_inner update_indexes
put_with_indexes opts env cf key value ttl search entries core =
    let (done, core') = put_cf_with_ttl_inner opts env cf key value ttl core in
    elim done [
      | err e ↦ (err e, core')
      | ok compacts ↦ (ok compacts, update_indexes opts cf search entries core')
    ]

-- The part of a delete up to the end of its locks. The tombstone in the log and the one in the
-- memtable are two records with two timestamps.
unfoldable pub delete_locked :
    EngineOptions → Env → String → Bytes → EngineCore → Result Bool × EngineCore
unfolding logged flush_if_full with_memtable add_bytes MemTable.delete Record.tombstone
delete_locked opts env cf key core =
    logged env cf (in_family cf (Record.tombstone env.now key) ∷ [])
      (λ core'.
        flush_if_full opts env cf
          (add_bytes cf (length key) (with_memtable cf (MemTable.delete env.second_now key) core')))
      core

-- The clock of the lookups after a delete.
abbrev pub after : Env → Env
after env = record env { now = env.now_after; second_now = env.now_after }

-- The lookups that follow: where the key still has a value, its index entries are removed, and else
-- the TTL entry of the key is looked up. They return nothing, and change the caches.
unfoldable pub after_delete : Env → String → Bytes → EngineCore → EngineCore
unfolding get_cf
after_delete env cf key core =
    let (found, core') = get_cf (after env) cf key core in
    elim found [
      | ok (some old) ↦ env.remove_indexes cf key old core'
      | ok none ↦ (get_cf (after env) cf (ttl_key env key) core').1
      | err e ↦ (get_cf (after env) cf (ttl_key env key) core').1
    ]

unfoldable pub delete_cf :
    EngineOptions → Env → String → Bytes → EngineCore → Result Bool × EngineCore
unfolding delete_locked after_delete
delete_cf opts env cf key core =
    let (done, core') = delete_locked opts env cf key core in
    elim done [
      | err e ↦ (err e, core')
      | ok compacts ↦ (ok compacts, after_delete env cf key core')
    ]

unfoldable pub delete_range_cf :
    Env → String → Bytes → Bytes → EngineCore → Result Bool × EngineCore
unfolding logged with_memtable add_range MemTable.add_range_tombstone Record.range_tombstone
delete_range_cf env cf start stop core =
    let range : RangeTombstone = record {
      start_key = start;
      end_key = stop;
      timestamp = env.now;
    } in
    logged env cf (in_family cf (Record.range_tombstone env.second_now start stop) ∷ [])
      (λ core'. (
        ok false,
        with_memtable cf (MemTable.add_range_tombstone range) (add_range cf range core'),
      ))
      core

-- `set_batch_cf`: one write of the log, and the same records' keys and values into the memtable.
unfoldable pub apply_sets : Env → String → List (Bytes × Bytes) → EngineCore → EngineCore
unfolding with_memtable add_bytes MemTable.put
apply_sets env cf [] core = core
apply_sets env cf ((k, v) ∷ items) core =
    apply_sets env cf items
      (add_bytes cf (length k + length v) (with_memtable cf (MemTable.put env.second_now k v) core))

unfoldable pub set_batch_cf :
    EngineOptions → Env → String → List (Bytes × Bytes) → EngineCore → Result Bool × EngineCore
unfolding logged apply_sets flush_if_full Record.new
set_batch_cf opts env cf items core =
    logged env cf (map (λ p. in_family cf (Record.new env.now p.0 p.1)) items)
      (λ core'. flush_if_full opts env cf (apply_sets env cf items core')) core

unfoldable pub apply_deletes : Env → String → List Bytes → EngineCore → EngineCore
unfolding with_memtable add_bytes MemTable.delete
apply_deletes env cf [] core = core
apply_deletes env cf (k ∷ keys) core =
    apply_deletes env cf keys
      (add_bytes cf (length k) (with_memtable cf (MemTable.delete env.second_now k) core))

unfoldable pub delete_batch_cf :
    EngineOptions → Env → String → List Bytes → EngineCore → Result Bool × EngineCore
unfolding logged apply_deletes flush_if_full Record.tombstone
delete_batch_cf opts env cf keys core =
    logged env cf (map (λ k. in_family cf (Record.tombstone env.now k)) keys)
      (λ core'. flush_if_full opts env cf (apply_deletes env cf keys core')) core
