-- ===== src/Engine/Point.antt =====
-- A record inserted in the last memtable, as the reads of core/engine/mod.rs see it.
use apex_store.Base.{
  ℕ, String, ◌≡◌, refl, ap, ◌∙◌, subst, Bool, true, false, ◌&&◌, Option, none, some, List,
  if◌then◌else◌, ◌==◌, Bool-cases, inl, inr, string_eq,
}
use mathlib.Core.List.{reverse}
use apex_store.Base.Bytes.{Bytes, bytes_eq}
use apex_store.Base.Dict
use apex_store.Base.Dict.{get-insert}
use text.Mathlib.TextEquality.{eq_iff}
use apex_store.Error.{Result, ok}
use apex_store.Merge.Collect.{or_else}
use apex_store.Record.{LogRecord}
use apex_store.MemTable
use apex_store.MemTable.{MemTable, maximum, newest_covering}
use apex_store.Engine.{
  EngineCore, Env, memtables_of, tombstones_of, update_last, with_memtable, add_bytes,
}
use apex_store.Engine.Read.{
  covering_in, later, covering_range_tombstone_ts, find_record, visible_value, get_found, get_cf,
}
use apex_store.Engine.Lookup.{
  SameRead, get_cf-from, get_cf-same, find_record-update_last, covering_in-update_last,
  max_covering-same,
}

unfoldable pub insert_point : String → LogRecord → ℕ → EngineCore → EngineCore
unfolding add_bytes with_memtable
insert_point cf r n core = add_bytes cf n (with_memtable cf (MemTable.insert r) core)

-- What an insertion answers for a key.
abbrev pub answer : LogRecord → Bytes → Option LogRecord
answer r key = if r.key == key then some r else none

pub get-insert_record :
    (r : LogRecord) (key : Bytes) (m : MemTable)
    → MemTable.get key (MemTable.insert r m) ≡ or_else (answer r key) (MemTable.get key m)
unfolding MemTable.get MemTable.insert
get-insert_record r key m =
    get-insert r.key key r m.data_map ∙ split (r.key == key) (Dict.get key m.data_map)
  where
    split :
        (b : Bool) (o : Option LogRecord)
        → (if b then some r else o) ≡ or_else (if b then some r else none) o
    split true o = refl
    split false o = refl

insert-ranges :
    (r : LogRecord) (m : MemTable) → (MemTable.insert r m).range_tombstones ≡ m.range_tombstones
unfolding MemTable.insert
insert-ranges r m = refl

pub memtables_of-same :
    (cf : String) (f : MemTable → MemTable) (core : EngineCore)
    → memtables_of (with_memtable cf f core) cf ≡ update_last f (memtables_of core cf)
unfolding with_memtable
memtables_of-same cf f core =
    rw (get-insert cf cf (update_last f (memtables_of core cf)) core.memtables, memtables_of)
      (rw ((eq_iff cf cf).1 refl) refl)

pub memtables_of-other :
    (cf cf' : String) (f : MemTable → MemTable) (core : EngineCore)
    → (cf == cf') ≡ false
    → memtables_of (with_memtable cf f core) cf' ≡ memtables_of core cf'
unfolding with_memtable
memtables_of-other cf cf' f core h =
    rw (get-insert cf cf' (update_last f (memtables_of core cf)) core.memtables, memtables_of)
      (rw h refl)

module _ (cf : String) (r : LogRecord) (n : ℕ) (core : EngineCore) where
  memtables-point :
      memtables_of (insert_point cf r n core) cf
      ≡ update_last (MemTable.insert r) (memtables_of core cf)
  unfolding insert_point
  memtables-point = memtables_of-same cf (MemTable.insert r) core

  find-point :
      (key : Bytes)
      → find_record key (reverse (memtables_of (insert_point cf r n core) cf))
        ≡ or_else (answer r key) (find_record key (reverse (memtables_of core cf)))
  find-point key =
      ap (λ (ms : List MemTable). find_record key (reverse ms)) memtables-point
      ∙ find_record-update_last (MemTable.insert r) key (answer r key) (memtables_of core cf)
          (get-insert_record r key)

  tombstones-point :
      (cf' : String) → tombstones_of (insert_point cf r n core) cf' ≡ tombstones_of core cf'
  unfolding insert_point
  tombstones-point cf' = refl

  pub covering-point :
      (key : Bytes)
      → covering_range_tombstone_ts (insert_point cf r n core) cf key
        ≡ covering_range_tombstone_ts core cf key
  unfolding covering_range_tombstone_ts insert_point
  covering-point key =
      ap
        (λ (ms : List MemTable).
          later (newest_covering key (tombstones_of core cf)) (maximum (covering_in key ms)))
        memtables-point
      ∙ ap (λ (ts : List ℕ). later (newest_covering key (tombstones_of core cf)) (maximum ts))
          (covering_in-update_last (MemTable.insert r) key (memtables_of core cf)
            (λ m. max_covering-same key (MemTable.insert r m) m (insert-ranges r m)))

  other-point :
      (cf' : String) (key : Bytes)
      → (cf == cf') ≡ false
      → SameRead cf' key (insert_point cf r n core) core
  unfolding insert_point covering_range_tombstone_ts
  other-point cf' key h = record {
    files = refl;
    version_set = refl;
    covering =
        ap
          (λ (ms : List MemTable).
            later (newest_covering key (tombstones_of core cf')) (maximum (covering_in key ms)))
          (memtables_of-other cf cf' (MemTable.insert r) core h);
    record_found =
        ap (λ (ms : List MemTable). find_record key (reverse ms))
          (memtables_of-other cf cf' (MemTable.insert r) core h);
  }

  -- A read of the record's key ends at the record.
  pub get_cf-own :
      (env : Env) (key : Bytes)
      → (r.key == key) ≡ true
      → get_cf env cf key (insert_point cf r n core) ≡ (
        ok (visible_value (covering_range_tombstone_ts core cf key) env.now r),
        insert_point cf r n core,
      )
  unfolding get_found
  get_cf-own env key same =
      get_cf-from env cf key (insert_point cf r n core) (covering_range_tombstone_ts core cf key)
        (some r) (covering-point key)
        (find-point key
          ∙ ap
              (λ b.
                or_else (if b then some r else none)
                  (find_record key (reverse (memtables_of core cf))))
              same)

  pub point-SameRead :
      (key : Bytes) → (r.key == key) ≡ false → SameRead cf key (insert_point cf r n core) core
  point-SameRead key other = record {
    files = unfold insert_point in refl;
    version_set = unfold insert_point in refl;
    covering = covering-point key;
    record_found =
        find-point key
        ∙ ap
            (λ b.
              or_else (if b then some r else none)
                (find_record key (reverse (memtables_of core cf))))
            other;
  }

  -- In the record's column family: its key is answered by the record, the others as before.
  get_cf-point :
      (env : Env) (key : Bytes)
      → (get_cf env cf key (insert_point cf r n core)).0 ≡ (
          if r.key == key
          then ok (visible_value (covering_range_tombstone_ts core cf key) env.now r)
          else (get_cf env cf key core).0)
  get_cf-point env key = elim (Bool-cases (r.key == key)) [
    | inl same ↦
        ap (λ (p : Result (Option Bytes) × EngineCore). p.0) (get_cf-own env key same)
        ∙ rw same refl
    | inr other ↦
        get_cf-same env cf key (insert_point cf r n core) core (point-SameRead key other)
        ∙ rw other refl
  ]

-- A read after a record was inserted: in its column family its key is answered by the record, as
-- the range tombstones and the time allow; every other read is as before.
pub get_cf-insert_point :
    (cf cf' : String) (r : LogRecord) (n : ℕ) (core : EngineCore) (env : Env) (key : Bytes)
    → (get_cf env cf' key (insert_point cf r n core)).0 ≡ (
        if cf == cf' && r.key == key
        then ok (visible_value (covering_range_tombstone_ts core cf key) env.now r)
        else (get_cf env cf' key core).0)
get_cf-insert_point cf cf' r n core env key = elim (Bool-cases (cf == cf')) [
  | inl same ↦ rw same (
      subst
        (λ (c : String). (get_cf env c key (insert_point cf r n core)).0 ≡ (
          if r.key == key
          then ok (visible_value (covering_range_tombstone_ts core cf key) env.now r)
          else (get_cf env c key core).0))
        ((eq_iff cf cf').0 same) (get_cf-point cf r n core env key))
  | inr other ↦ rw other (
      get_cf-same env cf' key (insert_point cf r n core) core
        (other-point cf r n core cf' key other))
]
