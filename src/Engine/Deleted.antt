-- ===== src/Engine/Deleted.antt =====
-- A delete of core/engine/mod.rs that does not fill the memtable, with the lookups after it.
use apex_store.Base.{
  ℕ, ◌+◌, ◌<◌, String, ◌≡◌, refl, sym, ap, ◌∙◌, subst, Bool, true, false, ◌&&◌, Option, none, some,
  [], ◌∷◌, ◌++◌, length, if◌then◌else◌, ◌==◌, string_eq, Bool-cases, inl, inr,
}
use apex_store.Base.Bytes.{Bytes, bytes_eq, bytes_beq_iff}
use text.Mathlib.TextEquality.{eq_iff}
use apex_store.Error.{Result, ok, err}
use apex_store.Record
use apex_store.Record.{LogRecord, RangeTombstone, is_expired_at}
use apex_store.Engine.{
  EngineOptions, EngineCore, Env, write_buffer_limit, bytes_of, with_memtable, add_bytes, log_of,
}
use apex_store.Engine.Write.{delete_locked, after, after_delete, delete_cf, in_family}
use apex_store.Engine.Read.{hides, covering_range_tombstone_ts, visible_value, get_cf}
use apex_store.Engine.Lookup.{get_cf-same, seen-same, get_cf-KeepsRest}
use apex_store.Engine.Logged.{WalWorks, SameData, logged_core, logged_core-SameData, log_of-logged}
use apex_store.Engine.Same.{SameData-SameRead, write_point-ran, log_of-insert_point}
use apex_store.Engine.Point.{insert_point, get_cf-own, point-SameRead, get_cf-insert_point}
use apex_store.Version.{VersionSet}
use apex_store.Engine.Flush.{ttl_key}

visible_value-deleted :
    (o : Option ℕ) (now : ℕ) (r : LogRecord) → r.is_deleted ≡ true → visible_value o now r ≡ none
unfolding visible_value
visible_value-deleted o now r h = elim (Bool-cases (hides o r.timestamp)) [
  | inl hidden ↦ rw hidden refl
  | inr shown ↦ rw shown (rw h refl)
]

-- The reads after a tombstone was inserted.
reads-tombstone :
    (cf cf' : String) (key k : Bytes) (now n : ℕ) (core : EngineCore) (env : Env)
    → (get_cf env cf' k (insert_point cf (Record.tombstone now key) n core)).0
      ≡ (if cf == cf' && key == k then ok none else (get_cf env cf' k core).0)
unfolding Record.tombstone
reads-tombstone cf cf' key k now n core env =
    get_cf-insert_point cf cf' (Record.tombstone now key) n core env k
    ∙ ap (λ (o : Option Bytes). if cf == cf' && key == k then ok o else (get_cf env cf' k core).0)
        (visible_value-deleted (covering_range_tombstone_ts core cf k) env.now
          (Record.tombstone now key) refl)

pub get_cf-tombstone :
    (cf : String) (key : Bytes) (now n : ℕ) (core : EngineCore) (env : Env)
    → (get_cf env cf key (insert_point cf (Record.tombstone now key) n core)).0 ≡ ok none
get_cf-tombstone cf key now n core env =
    reads-tombstone cf cf key key now n core env
    ∙ both (cf == cf) (key == key) ((eq_iff cf cf).1 refl) ((bytes_beq_iff key key).1 refl)
  where
    both :
        (a b : Bool)
        → a ≡ true
        → b ≡ true
        → (if a && b then ok none else (get_cf env cf key core).0) ≡ ok none
    both a b p q = rw (p, q) refl

module _ (opts : EngineOptions) (env : Env) (cf : String) (key : Bytes) (core : EngineCore) where
  abbrev start : EngineCore
  start = logged_core cf (in_family cf (Record.tombstone env.now key) ∷ []) core

  -- The state that the lookups see.
  abbrev deleted_core : EngineCore
  deleted_core = insert_point cf (Record.tombstone env.second_now key) (length key) start

  abbrev looked_up : VersionSet
  looked_up = (get_cf (after env) cf (ttl_key env key) deleted_core).1.version_set

  -- What they leave, without the tombstone in the memtable.
  abbrev pub looked_up_core : EngineCore
  looked_up_core = record start { version_set = looked_up }

  found-none : get_cf (after env) cf key deleted_core ≡ (ok none, deleted_core)
  unfolding Record.tombstone
  found-none =
      get_cf-own cf (Record.tombstone env.second_now key) (length key) start (after env) key
        ((bytes_beq_iff key key).1 refl)
      ∙ ap (λ (o : Option Bytes). (ok o, deleted_core))
          (visible_value-deleted (covering_range_tombstone_ts start cf key) env.now_after
            (Record.tombstone env.second_now key) refl)

  after_delete-ran :
      after_delete env cf key deleted_core
      ≡ insert_point cf (Record.tombstone env.second_now key) (length key) looked_up_core
  unfolding after_delete insert_point add_bytes with_memtable
  after_delete-ran =
      ap
        (λ (p : Result (Option Bytes) × EngineCore). elim p.0 as (λ q. EngineCore) [
          | ok o ↦ elim o [
            | some old ↦ env.remove_indexes cf key old p.1
            | none ↦ (get_cf (after env) cf (ttl_key env key) p.1).1
          ]
          | err e ↦ (get_cf (after env) cf (ttl_key env key) p.1).1
        ])
        found-none
      ∙ get_cf-KeepsRest (after env) cf (ttl_key env key) deleted_core

  pub delete_cf-ran :
      WalWorks env
      → bytes_of core cf + length key < write_buffer_limit opts
      → delete_cf opts env cf key core ≡ (
        ok false,
        insert_point cf (Record.tombstone env.second_now key) (length key) looked_up_core,
      )
  unfolding delete_cf delete_locked insert_point
  delete_cf-ran works room =
      ap
        (λ (p : Result Bool × EngineCore). elim p.0 as (λ q. Result Bool × EngineCore) [
          | err e ↦ (err e, p.1)
          | ok compacts ↦ (ok compacts, after_delete env cf key p.1)
        ])
        (write_point-ran opts env cf (in_family cf (Record.tombstone env.now key))
          (Record.tombstone env.second_now key) (length key) core works room)
      ∙ ap (λ (c : EngineCore). (ok false, c)) after_delete-ran

  -- The lookups leave in the version set what they would have left before the delete.
  looked_up-before :
      (key == ttl_key env key) ≡ false
      → looked_up ≡ (get_cf (after env) cf (ttl_key env key) core).1.version_set
  unfolding Record.tombstone
  looked_up-before other =
      ap (λ (p : Result (Option Bytes) × VersionSet). p.1)
        (seen-same (after env) cf (ttl_key env key) deleted_core start (
            point-SameRead cf (Record.tombstone env.second_now key) (length key) start
              (ttl_key env key) other)
          ∙ seen-same (after env) cf (ttl_key env key) start core (
              SameData-SameRead cf (ttl_key env key) start core
                (logged_core-SameData cf (in_family cf (Record.tombstone env.now key) ∷ []) core)))

  looked_up_core-SameData :
      (key == ttl_key env key) ≡ false
      → SameData looked_up_core (get_cf (after env) cf (ttl_key env key) core).1
  looked_up_core-SameData other =
      subst (SameData looked_up_core) (sym (get_cf-KeepsRest (after env) cf (ttl_key env key) core))
        (record {
          memtables = same.memtables;
          memtable_bytes = same.memtable_bytes;
          version_set = looked_up-before other;
          range_tombstones = same.range_tombstones;
          files = same.files;
        })
    where
      same : SameData start core
      same = logged_core-SameData cf (in_family cf (Record.tombstone env.now key) ∷ []) core

-- What a delete promises: no flush, its tombstone in the log, its key absent in its column family;
-- and all other reads answered as they would be before it once the key's TTL entry was looked up.
pub record IsDeleted (env : Env) (cf : String) (key : Bytes) (core : EngineCore)
    (out : Result Bool × EngineCore) : Type 0 where
  pub result : out.0 ≡ ok false
  pub log : log_of out.1 cf ≡ log_of core cf ++ in_family cf (Record.tombstone env.now key) ∷ []
  pub reads :
      (env' : Env) (cf' : String) (k : Bytes)
      → (get_cf env' cf' k out.1).0 ≡ (
          if cf == cf' && key == k
          then ok none
          else (get_cf env' cf' k (get_cf (after env) cf (ttl_key env key) core).1).0)

-- A delete with a log that takes appends and room in the memtable, of a key that is not its own TTL
-- entry's key, asks for no compaction and adds its tombstone to the log. Its key reads as absent in its
-- column family. Every other read is answered as it would be before the delete after a lookup of the
-- key's TTL entry, whatever the removal of index entries would do.
pub delete_cf-IsDeleted :
    (opts : EngineOptions) (env : Env) (cf : String) (key : Bytes) (core : EngineCore)
    → WalWorks env
    → bytes_of core cf + length key < write_buffer_limit opts
    → (key == ttl_key env key) ≡ false
    → IsDeleted env cf key core (delete_cf opts env cf key core)
delete_cf-IsDeleted opts env cf key core works room other =
    subst (IsDeleted env cf key core) (sym (delete_cf-ran opts env cf key core works room))
      (record {
        result = refl;
        log =
            log_of-insert_point cf cf (Record.tombstone env.second_now key) (length key)
              (looked_up_core opts env cf key core)
            ∙ log_of-logged cf (in_family cf (Record.tombstone env.now key) ∷ []) core;
        reads = λ env' cf' k.
            reads-tombstone cf cf' key k env.second_now (length key)
              (looked_up_core opts env cf key core) env'
            ∙ ap (λ (g : Result (Option Bytes)). if cf == cf' && key == k then ok none else g)
                (get_cf-same env' cf' k (looked_up_core opts env cf key core)
                  (get_cf (after env) cf (ttl_key env key) core).1
                  (SameData-SameRead cf' k (looked_up_core opts env cf key core)
                    (get_cf (after env) cf (ttl_key env key) core).1
                    (looked_up_core-SameData opts env cf key core other)));
      })
