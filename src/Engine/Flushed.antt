-- ===== src/Engine/Flushed.antt =====
-- What `flush_memtable_impl` of core/engine/mod.rs leaves in the version set.
pub mod File
pub mod Search
use apex_store.Base.{
  ℕ, ◌≤◌, String, ◌≡◌, refl, sym, ap, ◌∙◌, subst, Bool, true, false, not, ◌&&◌, ◌||◌, Option, none,
  some, List, [], ◌∷◌, ◌++◌, arith, map, keep, All, ltb, if◌then◌else◌, ◌==◌, string_eq, Bool-cases,
  beq_refl, Option-cases, inl, inr, pair_eq, nat_eq,
}
use mathlib.Core.List.{reverse, reverse-append}
use apex_store.Base.Bytes.{Bytes, bytes_lt, bytes_eq, bytes_beq_iff}
use apex_store.Base.Dict
use apex_store.Base.Dict.{Dict, get-insert_self}
use apex_store.Base.Sorted.{
  Above, IsAscending, Unique, sort_by_key, get-sort_by_key, sort_by_key-IsAscending,
  sort_by_key_again, sort_by_key-All,
}
use apex_store.Error.{Result, ok, err, ◌>>◌}
use apex_store.Record.{LogRecord, is_expired_at}
use apex_store.MemTable
use apex_store.MemTable.{MemTable}
use apex_store.Version
use apex_store.Version.{
  SstFile, SstPath, Files, Table, VersionSet, first_key, last_key, tables_of, add_table,
  is_quarantined, outside_both, bloom_rejects, probe, probe_data, probe_file, after_read,
  search_tables, Probe, next_table, returns, from_sstable_path, is_empty, put_cached, get_cached,
  read_file, table_count,
}
use apex_store.Version.Cached.{get-miss}
use apex_store.Version.Newest.{
  HasNoFalseNegatives, first_key-le, le-last_key, keys_contain, rejects_none,
}
use apex_store.Engine.{EngineOptions, EngineCore, Env, memtables_of, set_log, wal_handle}
use apex_store.Engine.Read.{visible_value}
use apex_store.Engine.Logged.{WalWorks, SameData, opened_core, opened_core-SameData, wal_handle-ok}
use apex_store.Engine.Flush.{
  ttl_prefix, ttl_key, ttl_record, starts_with, with_ttl_entries, combined_records, raw_values,
  insert_ttl_values, flush_path, build_file, write_file, pop_last, finish_flush, install_table,
  sync_only, flush_memtable_impl,
}
use apex_store.Engine.Flushed.File.{
  Fits, IsLasting, IsPlain, is_expired_at-lasting, raw_values-lasting, insert_ttl_values-lasting,
  file_of, table_of, build_file-plain, value_of,
}
use apex_store.Engine.Flushed.Search.{answer_of, get-IsLasting, if_false, if_true, search-flushed}

-- The state before the end of a flush that has written its file.
abbrev installed : Env → String → List MemTable → MemTable → EngineCore → EngineCore
installed env cf before mem core = record core {
  memtables = Dict.insert cf before core.memtables;
  files = write_file (flush_path env) (file_of env mem) core.files;
  version_set = add_table cf (table_of env mem) core.version_set;
}

abbrev no_bytes : String → EngineCore → EngineCore
no_bytes cf core = record core { memtable_bytes = Dict.insert cf 0 core.memtable_bytes }

finish_flush-ok :
    (opts : EngineOptions) (env : Env) (cf : String) (core : EngineCore) (n : ℕ)
    → WalWorks env
    → env.wal_clear ≡ ok tt
    → Dict.get cf core.memtable_bytes ≡ some n
    → finish_flush opts env cf core ≡ (
      ok (ltb opts.compaction_threshold (table_count cf core.version_set)),
      set_log cf [] (opened_core cf (no_bytes cf core)),
    )
unfolding finish_flush
finish_flush-ok opts env cf core n works cleared counted =
    rw (counted, finish_flush)
      (ap
          (λ (p : Result (Unit {0}) × EngineCore). elim p.0 [
            | err e ↦ (err e, p.1)
            | ok u ↦ elim env.wal_clear [
              | err e ↦ (err e, p.1)
              | ok w ↦ (
                ok (ltb opts.compaction_threshold (table_count cf core.version_set)),
                set_log cf [] p.1,
              )
            ]
          ])
          (wal_handle-ok env cf (no_bytes cf core) works.opens)
        ∙ rw cleared refl)

install_table-ok :
    (opts : EngineOptions) (env : Env) (cf : String) (before : List MemTable) (mem : MemTable)
    (core : EngineCore)
    → IsPlain mem
    → env.sst_open ≡ ok tt
    → install_table opts env cf mem
        (file_of env mem)
        (record core { memtables = Dict.insert cf before core.memtables })
      ≡ finish_flush opts env cf (installed env cf before mem core)
unfolding install_table from_sstable_path
install_table-ok opts env cf before mem core plain opens = rw opens (
    ap
      (λ (m : Dict Bytes Bytes). finish_flush opts env cf (record core {
        memtables = Dict.insert cf before core.memtables;
        files = write_file (flush_path env) (file_of env mem) core.files;
        version_set = add_table cf (record (table_of env mem) { data_map = m }) core.version_set;
      }))
      (insert_ttl_values-lasting (sort_by_key mem.data_map) (raw_values env mem.data_map)
        (sort_by_key-All IsLasting mem.data_map plain.lasting)))

flush-installed :
    (opts : EngineOptions) (env : Env) (cf : String) (before : List MemTable) (mem : MemTable)
    (core : EngineCore)
    → pop_last (memtables_of core cf) ≡ some (before, mem)
    → is_empty mem.data_map ≡ false
    → IsPlain mem
    → All (Fits env) mem.data_map
    → env.sst_create ≡ ok tt
    → env.sst_write ≡ ok tt
    → env.sst_open ≡ ok tt
    → flush_memtable_impl opts env cf core
      ≡ finish_flush opts env cf (installed env cf before mem core)
unfolding flush_memtable_impl
flush-installed opts env cf before mem core popped full plain fits created written opens =
    rw (popped, flush_memtable_impl)
      (if_false (is_empty mem.data_map) (sync_only env cf core)
          (elim (build_file env (combined_records env mem)) [
            | err e ↦ (err e, popped_core)
            | ok file ↦ install_table opts env cf mem file popped_core
          ])
          full
        ∙ ap
            (λ (f : Result SstFile). elim f as (λ q. Result Bool × EngineCore) [
              | err e ↦ (err e, popped_core)
              | ok file ↦ install_table opts env cf mem file popped_core
            ])
            (build_file-plain env mem plain full fits created written)
        ∙ install_table-ok opts env cf before mem core plain opens)
  where
    popped_core : EngineCore
    popped_core = record core { memtables = Dict.insert cf before core.memtables }

is_empty-found :
    (k : Bytes) (r : LogRecord) (m : Dict Bytes LogRecord)
    → Dict.get k m ≡ some r
    → is_empty m ≡ false
unfolding Dict.get
is_empty-found k r [] h = absurd (cc h)
is_empty-found k r (p ∷ m) h = refl

write_file-found :
    (path : SstPath) (file : SstFile) (files : Files) → write_file path file files path ≡ ok file
write_file-found path file files = if_true (path == path) (ok file) (files path) (beq_refl path)

tables_of-added :
    (cf : String) (t : Table) (vs : VersionSet)
    → tables_of (add_table cf t vs) cf ≡ tables_of vs cf ++ t ∷ []
unfolding add_table
tables_of-added cf t vs = rw (get-insert_self cf (tables_of vs cf ++ t ∷ []) vs.tables, tables_of)

-- A lookup after the table of a flushed memtable was added.
get-add_flushed :
    (env : Env) (mem : MemTable) (cf : String) (k : Bytes) (r : LogRecord) (files : Files) (now : ℕ)
    (vs : VersionSet)
    → IsPlain mem
    → HasNoFalseNegatives env.new_bloom
    → Dict.get k mem.data_map ≡ some r
    → files (flush_path env) ≡ ok (file_of env mem)
    → is_quarantined vs (flush_path env) ≡ false
    → vs.has_block_cache ≡ true
    → (Version.get files now cf k (add_table cf (table_of env mem) vs)).0 ≡ answer_of r
get-add_flushed env mem cf k r files now vs plain sound found on_disk trusted readable =
    ap (λ (o : Option Bytes × VersionSet). o.0) (get-miss files now cf k vs' no_cache)
    ∙ ap (λ (ts : List Table). (search_tables files now k (reverse ts) vs').0)
        (tables_of-added cf (table_of env mem) vs)
    ∙ ap (λ (ts : List Table). (search_tables files now k ts vs').0)
        (reverse-append (tables_of vs cf) (table_of env mem ∷ []))
    ∙ search-flushed env mem plain sound k r found files now vs' on_disk
        (unfold is_quarantined add_table in trusted) (unfold add_table in readable)
        (reverse (tables_of vs cf))
  where
    vs' : VersionSet
    vs' = add_table cf (table_of env mem) vs

    no_cache : get_cached vs' k ≡ none
    no_cache = unfold get_cached add_table Dict.get in refl

visible_value-lasting :
    (now : ℕ) (r : LogRecord) → r.expires_at ≡ none → visible_value none now r ≡ answer_of r
unfolding visible_value
visible_value-lasting now r h =
    ap (λ (b : Bool). if r.is_deleted then none else if b then none else some r.value)
      (is_expired_at-lasting r now h)

-- What the flush of a memtable meets, outside and in the state, when it goes through.
pub record CanFlush (env : Env) (cf : String) (core : EngineCore) : Type 0 where
  pub wal : WalWorks env
  pub cleared : env.wal_clear ≡ ok tt
  pub created : env.sst_create ≡ ok tt
  pub written : env.sst_write ≡ ok tt
  pub opens : env.sst_open ≡ ok tt
  pub short_blocks : env.block_size ≤ 65536
  pub bloom : HasNoFalseNegatives env.new_bloom
  pub counted : (n : ℕ) × (Dict.get cf core.memtable_bytes ≡ some n)
  pub trusted : is_quarantined core.version_set (flush_path env) ≡ false
  pub readable : core.version_set.has_block_cache ≡ true

-- A flush whose memtable holds plain records (one a key, none with an expiry or a TTL side entry's
-- key), each small enough for a block of at most 64 KiB, where the log opens, is truncated, and the
-- table's file is created, written and opened without an error, where the filter has no false negatives,
-- the table's file is not quarantined, the block cache is on, and the family has a byte count: it asks
-- for a compaction as the count of tables says, and the tables then answer each key of the memtable as
-- the memtable did without a range tombstone, deletions included.
pub get-flushed :
    (opts : EngineOptions) (env : Env) (cf : String) (before : List MemTable) (mem : MemTable)
    (core : EngineCore) (k : Bytes) (r : LogRecord) (now : ℕ)
    → pop_last (memtables_of core cf) ≡ some (before, mem)
    → IsPlain mem
    → All (Fits env) mem.data_map
    → CanFlush env cf core
    → MemTable.get k mem ≡ some r
    → let out = flush_memtable_impl opts env cf core in
      (out.0 ≡ ok (ltb opts.compaction_threshold (table_count cf out.1.version_set)))
      × ((Version.get out.1.files now cf k out.1.version_set).0 ≡ visible_value none now r)
unfolding MemTable.get
get-flushed opts env cf before mem core k r now popped plain fits can found =
    subst
      (λ (out : Result Bool × EngineCore).
        (out.0 ≡ ok (ltb opts.compaction_threshold (table_count cf out.1.version_set)))
        × ((Version.get out.1.files now cf k out.1.version_set).0 ≡ visible_value none now r))
      (sym ran)
      (
        ap (λ (vs : VersionSet). ok (ltb opts.compaction_threshold (table_count cf vs)))
            (sym same.version_set),
        ap (λ (fs : Files). (Version.get fs now cf k final.version_set).0) same.files
            ∙ ap (λ (vs : VersionSet). (Version.get start.files now cf k vs).0) same.version_set
            ∙ get-add_flushed env mem cf k r start.files now core.version_set plain can.bloom found
                (write_file-found (flush_path env) (file_of env mem) core.files) can.trusted
                can.readable
            ∙ sym (
                visible_value-lasting now r
                  (get-IsLasting k r mem.data_map plain.lasting found).forever),
      )
  where
    start : EngineCore
    start = installed env cf before mem core

    final : EngineCore
    final = opened_core cf (no_bytes cf start)

    same : SameData final (no_bytes cf start)
    same = opened_core-SameData cf (no_bytes cf start)

    ran : flush_memtable_impl opts env cf core ≡ (
      ok (ltb opts.compaction_threshold (table_count cf start.version_set)),
      set_log cf [] final,
    )
    ran =
        flush-installed opts env cf before mem core popped (is_empty-found k r mem.data_map found)
          plain fits can.created can.written can.opens
        ∙ finish_flush-ok opts env cf start can.counted.0 can.wal can.cleared can.counted.1
