-- ===== src/Engine/Failed.antt =====
-- Writes of core/engine/mod.rs whose append to the log fails.
use apex_store.Base.{
  ℕ, ◌≤◌, String, ◌≡◌, refl, sym, ap, ◌∙◌, subst, Bool, Option, List, [], ◌∷◌, ◌++◌, length,
  Bool-cases, inl, inr, ◌+◌, string_eq,
}
use apex_store.Base.Bytes.{Bytes}
use apex_store.Error.{LsmError, Result, ok, err}
use apex_store.Record.{LogRecord}
use apex_store.MemTable
use apex_store.Engine.{
  EngineOptions, EngineCore, Env, log_of, set_log, append_log, with_memtable, add_bytes,
}
use apex_store.Engine.Write.{
  max_key_size, max_value_size, put_record, flush_if_full, logged, put_cf_with_ttl_inner,
}
use apex_store.Engine.Read.{get_cf}
use apex_store.Engine.Lookup.{get_cf-same}
use apex_store.Engine.Logged.{
  wal_handle-ok, SameData, opened_core, opened_core-SameData, set_log-SameData,
}
use apex_store.Engine.Same.{SameData-SameRead, ltb-fits}

-- A log that opens and refuses an append.
pub record WalFails (env : Env) (e : LsmError) : Type 0 where
  pub opens : env.wal_open ≡ ok tt
  pub refuses : env.wal_write ≡ err e

-- The write ends in the error, and no read has another answer than before.
pub record IsFailed (e : LsmError) (core : EngineCore) (out : Result Bool × EngineCore)
    : Type 0 where
  pub result : out.0 ≡ err e
  pub reads :
      (env : Env) (cf : String) (key : Bytes)
      → (get_cf env cf key out.1).0 ≡ (get_cf env cf key core).0

SameData-trans : (a b c : EngineCore) → SameData a b → SameData b c → SameData a c
SameData-trans a b c p q = record {
  memtables = p.memtables ∙ q.memtables;
  memtable_bytes = p.memtable_bytes ∙ q.memtable_bytes;
  version_set = p.version_set ∙ q.version_set;
  range_tombstones = p.range_tombstones ∙ q.range_tombstones;
  files = p.files ∙ q.files;
}

SameData-refl : (a : EngineCore) → SameData a a
SameData-refl a = record {
  memtables = refl;
  memtable_bytes = refl;
  version_set = refl;
  range_tombstones = refl;
  files = refl;
}

-- The log may hold the records all the same.
append_log-failed :
    (env : Env) (cf : String) (r : LogRecord) (rs : List LogRecord) (core : EngineCore)
    (e : LsmError)
    → env.wal_write ≡ err e
    → (c : EngineCore) × SameData c core × (append_log env cf (r ∷ rs) core ≡ (err e, c))
unfolding append_log
append_log-failed env cf r rs core e refuses = elim (Bool-cases env.wal_kept) [
  | inl there ↦ (
    set_log cf (log_of core cf ++ r ∷ rs) core,
    set_log-SameData cf (log_of core cf ++ r ∷ rs) core,
    rw (refuses, append_log) (rw there refl),
  )
  | inr lost ↦ (core, SameData-refl core, rw (refuses, append_log) (rw lost refl))
]

logged-IsFailed :
    (env : Env) (cf : String) (r : LogRecord) (rs : List LogRecord)
    (next : EngineCore → Result Bool × EngineCore) (core : EngineCore) (e : LsmError)
    → WalFails env e
    → IsFailed e core (logged env cf (r ∷ rs) next core)
unfolding logged
logged-IsFailed env cf r rs next core e fails =
    let (c, same, refused) = append_log-failed env cf r rs (opened_core cf core) e fails.refuses in
    let together =
      SameData-trans c (opened_core cf core) core same (opened_core-SameData cf core) in
    subst (IsFailed e core)
      (sym (
        ap
          (λ (p : Result (Unit {0}) × EngineCore). elim p.0 [
            | err e ↦ (err e, p.1)
            | ok u ↦ elim (append_log env cf (r ∷ rs) p.1).0 [
              | err e ↦ (err e, (append_log env cf (r ∷ rs) p.1).1)
              | ok w ↦ next (append_log env cf (r ∷ rs) p.1).1
            ]
          ])
          (wal_handle-ok env cf core fails.opens)
        ∙ ap
            (λ (p : Result (Unit {0}) × EngineCore). elim p.0 [
              | err e ↦ (err e, p.1)
              | ok w ↦ next p.1
            ])
            refused))
      (record {
        result = refl;
        reads = λ env' cf' key.
            get_cf-same env' cf' key c core (SameData-SameRead cf' key c core together);
      })

-- A put of a key and a value within the size limits whose append to the log fails returns that
-- error, and every read is as before.
pub put-IsFailed :
    (opts : EngineOptions) (env : Env) (cf : String) (key value : Bytes) (ttl : Option ℕ)
    (core : EngineCore) (e : LsmError)
    → length key ≤ max_key_size
    → length value ≤ max_value_size
    → WalFails env e
    → IsFailed e core (put_cf_with_ttl_inner opts env cf key value ttl core)
unfolding put_cf_with_ttl_inner
put-IsFailed opts env cf key value ttl core e key_fits value_fits fails =
    rw (ltb-fits (length key) max_key_size key_fits, put_cf_with_ttl_inner)
      (rw (ltb-fits (length value) max_value_size value_fits, put_cf_with_ttl_inner)
        (logged-IsFailed env cf (put_record opts env cf key value ttl) []
          (λ core'. flush_if_full opts env cf (
            add_bytes cf (length key + length value)
              (with_memtable cf (MemTable.insert (put_record opts env cf key value ttl)) core')))
          core e fails))
