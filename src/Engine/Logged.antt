-- ===== src/Engine/Logged.antt =====
-- The log's part of a write of core/engine/mod.rs, when the log's writes succeed.
use apex_store.Base.{
  String, ◌≡◌, refl, ap, ◌∙◌, Bool, none, some, List, [], ◌∷◌, ◌++◌, string_eq, inl, inr,
  Option-cases,
}
use apex_store.Base.Dict
use apex_store.Base.Dict.{get-insert_self}
use apex_store.Error.{Result, ok, err}
use apex_store.Record.{LogRecord}
use apex_store.Engine.{EngineCore, Env, log_of, set_log, wal_handle, append_log}
use apex_store.Engine.Write.{logged}

-- A log that opens and takes appends.
pub record WalWorks (env : Env) : Type 0 where
  pub opens : env.wal_open ≡ ok tt
  pub writes : env.wal_write ≡ ok tt

-- States that differ at most in their logs.
pub record SameData (a b : EngineCore) : Type 0 where
  pub memtables : a.memtables ≡ b.memtables
  pub memtable_bytes : a.memtable_bytes ≡ b.memtable_bytes
  pub version_set : a.version_set ≡ b.version_set
  pub range_tombstones : a.range_tombstones ≡ b.range_tombstones
  pub files : a.files ≡ b.files

pub set_log-SameData :
    (cf : String) (rs : List LogRecord) (core : EngineCore) → SameData (set_log cf rs core) core
set_log-SameData cf rs core = record {
  memtables = refl;
  memtable_bytes = refl;
  version_set = refl;
  range_tombstones = refl;
  files = refl;
}

log_of-set_log :
    (cf : String) (rs : List LogRecord) (core : EngineCore) → log_of (set_log cf rs core) cf ≡ rs
log_of-set_log cf rs core = rw (get-insert_self cf rs core.wals, log_of) refl

append_log-ok :
    (env : Env) (cf : String) (r : LogRecord) (rs : List LogRecord) (core : EngineCore)
    → WalWorks env
    → append_log env cf (r ∷ rs) core ≡ (ok tt, set_log cf (log_of core cf ++ r ∷ rs) core)
unfolding append_log
append_log-ok env cf r rs core works = rw works.writes refl

-- The state in which the log is open.
unfoldable pub opened_core : String → EngineCore → EngineCore
opened_core cf core = elim (Dict.get cf core.wals) [ some rs ↦ core | none ↦ set_log cf [] core ]

pub wal_handle-ok :
    (env : Env) (cf : String) (core : EngineCore)
    → env.wal_open ≡ ok tt
    → wal_handle env cf core ≡ (ok tt, opened_core cf core)
unfolding wal_handle opened_core
wal_handle-ok env cf core opens = elim (Option-cases (Dict.get cf core.wals)) [
  | inl missing ↦ rw (missing, wal_handle, opened_core) (rw opens refl)
  | inr (rs, found) ↦ rw (found, wal_handle, opened_core) refl
]

pub opened_core-SameData : (cf : String) (core : EngineCore) → SameData (opened_core cf core) core
unfolding opened_core
opened_core-SameData cf core = elim (Option-cases (Dict.get cf core.wals)) [
  | inl missing ↦ rw (missing, opened_core) (set_log-SameData cf [] core)
  | inr (rs, found) ↦
      rw (found, opened_core)
        (record {
          memtables = refl;
          memtable_bytes = refl;
          version_set = refl;
          range_tombstones = refl;
          files = refl;
        })
]

pub log_of-opened :
    (cf : String) (core : EngineCore) → log_of (opened_core cf core) cf ≡ log_of core cf
unfolding opened_core
log_of-opened cf core = elim (Option-cases (Dict.get cf core.wals)) [
  | inl missing ↦ rw (missing, opened_core, log_of) (log_of-set_log cf [] core)
  | inr (rs, found) ↦ rw (found, opened_core, log_of) (rw (found, log_of) refl)
]

-- The state that the rest of a write starts from.
unfoldable pub logged_core : String → List LogRecord → EngineCore → EngineCore
unfolding opened_core
logged_core cf records core =
    set_log cf (log_of (opened_core cf core) cf ++ records) (opened_core cf core)

pub logged_core-SameData :
    (cf : String) (rs : List LogRecord) (core : EngineCore) → SameData (logged_core cf rs core) core
unfolding logged_core
logged_core-SameData cf rs core =
    let same = opened_core-SameData cf core in
    record {
      memtables = same.memtables;
      memtable_bytes = same.memtable_bytes;
      version_set = same.version_set;
      range_tombstones = same.range_tombstones;
      files = same.files;
    }

pub log_of-logged :
    (cf : String) (rs : List LogRecord) (core : EngineCore)
    → log_of (logged_core cf rs core) cf ≡ log_of core cf ++ rs
unfolding logged_core
log_of-logged cf rs core =
    log_of-set_log cf (log_of (opened_core cf core) cf ++ rs) (opened_core cf core)
    ∙ ap (λ (l : List LogRecord). l ++ rs) (log_of-opened cf core)

pub logged-ok :
    (env : Env) (cf : String) (r : LogRecord) (rs : List LogRecord)
    (next : EngineCore → Result Bool × EngineCore) (core : EngineCore)
    → WalWorks env
    → logged env cf (r ∷ rs) next core ≡ next (logged_core cf (r ∷ rs) core)
unfolding logged logged_core
logged-ok env cf r rs next core works =
    ap
      (λ (p : Result (Unit {0}) × EngineCore). elim p.0 [
        | err e ↦ (err e, p.1)
        | ok u ↦ elim (append_log env cf (r ∷ rs) p.1).0 [
          | err e ↦ (err e, (append_log env cf (r ∷ rs) p.1).1)
          | ok w ↦ next (append_log env cf (r ∷ rs) p.1).1
        ]
      ])
      (wal_handle-ok env cf core works.opens)
    ∙ ap
        (λ (p : Result (Unit {0}) × EngineCore). elim p.0 [
          | err e ↦ (err e, p.1)
          | ok w ↦ next p.1
        ])
        (append_log-ok env cf r rs (opened_core cf core) works)
