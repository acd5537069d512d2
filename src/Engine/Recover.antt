-- ===== src/Engine/Recover.antt =====
-- What `replay_wal_records_core` of core/engine/mod.rs rebuilds from a log.
use apex_store.Base.{
  ℕ, ◌+◌, ◌≤◌, ◌<◌, String, ◌≡◌, refl, sym, ap, ◌∙◌, subst, Bool, true, false, not, ◌&&◌, Option,
  none, some, List, [], ◌∷◌, ◌++◌, length, if◌then◌else◌, ◌==◌, string_eq, Bool-cases, Option-cases,
  inl, inr,
}
use mathlib.Core.List.{reverse}
use apex_store.Base.Bytes.{Bytes, bytes_eq, bytes_beq_iff}
use text.Mathlib.TextEquality.{eq_iff}
use apex_store.Merge.Collect.{or_else}
use apex_store.Record
use apex_store.Record.{LogRecord, RangeTombstone, is_range_tombstone}
use apex_store.MemTable
use apex_store.MemTable.{MemTable}
use apex_store.Engine.{
  EngineOptions, EngineCore, Env, write_buffer_limit, memtables_of, bytes_of, log_of, with_memtable,
  add_bytes, add_range,
}
use apex_store.Engine.Write.{
  max_key_size, max_value_size, with_default_ttl, put_record, put_cf_with_ttl_inner,
}
use apex_store.Engine.Read.{find_record}
use apex_store.Engine.Replay.{family_of, or_empty, replay_one, replay_wal_records_core}
use apex_store.Engine.Lookup.{find_record-update_last, or_else_assoc}
use apex_store.Engine.Point.{
  insert_point, answer, get-insert_record, memtables_of-same, memtables_of-other,
}
use apex_store.Engine.Range.{insert_range, get-range}
use apex_store.Engine.Logged.{WalWorks}
use apex_store.Engine.Put.{put-IsWritten}

-- The record of a column family and a key in the memtables, newest memtable first.
abbrev pub recorded : EngineCore → String → Bytes → Option LogRecord
recorded core cf key = find_record key (reverse (memtables_of core cf))

-- What a record of the log answers: a range tombstone answers no key.
abbrev pub answer_in : String → LogRecord → Bytes → Option LogRecord
answer_in cf r key = if not (is_range_tombstone r) && family_of r == cf then answer r key else none

-- The last record of a log for a column family and a key.
abbrev pub last_record : String → Bytes → List LogRecord → Option LogRecord
last_record cf key [] = none
last_record cf key (r ∷ rs) = or_else (last_record cf key rs) (answer_in cf r key)

pub recorded-update :
    (f : MemTable → MemTable) (cf cf' : String) (key : Bytes) (o : Option LogRecord)
    (core : EngineCore)
    → ((m : MemTable) → MemTable.get key (f m) ≡ or_else o (MemTable.get key m))
    → recorded (with_memtable cf f core) cf' key
      ≡ or_else (if cf == cf' then o else none) (recorded core cf' key)
recorded-update f cf cf' key o core h = elim (Bool-cases (cf == cf')) [
  | inl same ↦ rw same (
      subst
        (λ (c : String). recorded (with_memtable cf f core) c key ≡ or_else o (recorded core c key))
        ((eq_iff cf cf').0 same)
        (ap (λ (ms : List MemTable). find_record key (reverse ms)) (memtables_of-same cf f core)
          ∙ find_record-update_last f key o (memtables_of core cf) h))
  | inr other ↦ rw other (
      ap (λ (ms : List MemTable). find_record key (reverse ms))
        (memtables_of-other cf cf' f core other))
]

replay_one-point :
    (r : LogRecord) (core : EngineCore)
    → is_range_tombstone r ≡ false
    → replay_one r core ≡ insert_point (family_of r) r (length r.key + length r.value) core
unfolding replay_one insert_point
replay_one-point r core h = rw h refl

replay_one-range :
    (r : LogRecord) (core : EngineCore)
    → is_range_tombstone r ≡ true
    → replay_one r core
      ≡ insert_range
          (family_of r)
          (record {
            start_key = or_empty r.range_start;
            end_key = or_empty r.range_end;
            timestamp = r.timestamp;
          })
          core
unfolding replay_one insert_range
replay_one-range r core h = rw h refl

pub recorded-insert_point :
    (cf cf' : String) (key : Bytes) (r : LogRecord) (n : ℕ) (core : EngineCore)
    → recorded (insert_point cf r n core) cf' key
      ≡ or_else (if cf == cf' then answer r key else none) (recorded core cf' key)
unfolding insert_point add_bytes
recorded-insert_point cf cf' key r n core =
    recorded-update (MemTable.insert r) cf cf' key (answer r key) core (get-insert_record r key)

recorded-insert_range :
    (cf cf' : String) (key : Bytes) (t : RangeTombstone) (core : EngineCore)
    → recorded (insert_range cf t core) cf' key ≡ recorded core cf' key
unfolding insert_range add_range
recorded-insert_range cf cf' key t core =
    recorded-update (MemTable.add_range_tombstone t) cf cf' key none (add_range cf t core)
      (get-range key t)
    ∙ ap (λ o. or_else o (recorded core cf' key)) (neither (cf == cf'))
  where
    no_record : Option LogRecord
    no_record = none

    neither : (b : Bool) → (if b then none else none) ≡ no_record
    neither true = refl
    neither false = refl

recorded-replay_one :
    (cf : String) (key : Bytes) (r : LogRecord) (core : EngineCore)
    → recorded (replay_one r core) cf key ≡ or_else (answer_in cf r key) (recorded core cf key)
recorded-replay_one cf key r core = elim (Bool-cases (is_range_tombstone r)) [
  | inl range ↦
      ap (λ c. recorded c cf key) (replay_one-range r core range)
      ∙ recorded-insert_range (family_of r) cf key
          (record {
            start_key = or_empty r.range_start;
            end_key = or_empty r.range_end;
            timestamp = r.timestamp;
          })
          core
      ∙ rw (range, answer_in) refl
  | inr point ↦
      ap (λ c. recorded c cf key) (replay_one-point r core point)
      ∙ recorded-insert_point (family_of r) cf key r (length r.key + length r.value) core
      ∙ rw (point, answer_in) refl
]

-- Replaying a log onto a state: each key's record is the log's last one for the key and its column
-- family that is not a range tombstone, and where there is none the record of before.
pub recorded-replay :
    (cf : String) (key : Bytes) (rs : List LogRecord) (core : EngineCore)
    → find_record key (reverse (memtables_of (replay_wal_records_core rs core) cf))
      ≡ or_else (last_record cf key rs) (find_record key (reverse (memtables_of core cf)))
unfolding replay_wal_records_core
recorded-replay cf key [] core = refl
recorded-replay cf key (r ∷ rs) core =
    recorded-replay cf key rs (replay_one r core)
    ∙ ap (or_else (last_record cf key rs)) (recorded-replay_one cf key r core)
    ∙ sym (or_else_assoc (last_record cf key rs) (answer_in cf r key) (recorded core cf key))

last_record-append :
    (cf : String) (key : Bytes) (rs : List LogRecord) (r : LogRecord)
    → last_record cf key (rs ++ r ∷ []) ≡ or_else (answer_in cf r key) (last_record cf key rs)
last_record-append cf key [] r = sym (none_last (answer_in cf r key))
  where
    none_last : (o : Option LogRecord) → or_else o none ≡ o
    none_last none = refl
    none_last (some a) = refl
last_record-append cf key (q ∷ rs) r =
    ap (λ o. or_else o (answer_in cf q key)) (last_record-append cf key rs r)
    ∙ or_else_assoc (answer_in cf r key) (last_record cf key rs) (answer_in cf q key)

-- The fields of a put's record that a replay reads.
record IsPointOf (cf : String) (key : Bytes) (r : LogRecord) : Type 0 where
  not_range : r.range_start ≡ none
  family : r.column_family ≡ some cf
  its_key : r.key ≡ key

put_record-IsPointOf :
    (opts : EngineOptions) (env : Env) (cf : String) (key value : Bytes) (ttl : Option ℕ)
    → IsPointOf cf key (put_record opts env cf key value ttl)
unfolding put_record with_default_ttl Record.new Record.new_with_ttl
put_record-IsPointOf opts env cf key value (some t) = record {
  not_range = refl;
  family = refl;
  its_key = refl;
}
put_record-IsPointOf opts env cf key value none = elim (Option-cases opts.default_ttl) [
  | inl no_ttl ↦
      rw (no_ttl, put_record) (record { not_range = refl; family = refl; its_key = refl })
  | inr (t, a_ttl) ↦
      rw (a_ttl, put_record) (record { not_range = refl; family = refl; its_key = refl })
]

answer_in-point :
    (cf : String) (key : Bytes) (r : LogRecord) → IsPointOf cf key r → answer_in cf r key ≡ some r
unfolding is_range_tombstone
answer_in-point cf key r h =
    rw (h.not_range, answer_in)
      (rw (h.family, answer_in)
        (rw ((eq_iff cf cf).1 refl, answer_in)
          (rw ((bytes_beq_iff r.key key).1 h.its_key, answer) refl)))

answer_in-put :
    (opts : EngineOptions) (env : Env) (cf : String) (key value : Bytes) (ttl : Option ℕ)
    → answer_in cf (put_record opts env cf key value ttl) key
      ≡ some (put_record opts env cf key value ttl)
answer_in-put opts env cf key value ttl =
    answer_in-point cf key (put_record opts env cf key value ttl)
      (put_record-IsPointOf opts env cf key value ttl)

-- A restart after a put within the size limits, with a log that takes appends and room in the memtable:
-- replaying the column family's log onto any state finds the put's record under its key.
pub recovered-put :
    (opts : EngineOptions) (env : Env) (cf : String) (key value : Bytes) (ttl : Option ℕ)
    (core fresh : EngineCore)
    → length key ≤ max_key_size
    → length value ≤ max_value_size
    → WalWorks env
    → bytes_of core cf + (length key + length value) < write_buffer_limit opts
    → find_record key (
        reverse (
          memtables_of
            (replay_wal_records_core
              (log_of (put_cf_with_ttl_inner opts env cf key value ttl core).1 cf)
              fresh)
            cf))
      ≡ some (put_record opts env cf key value ttl)
recovered-put opts env cf key value ttl core fresh key_fits value_fits works room =
    ap (λ (l : List LogRecord). recorded (replay_wal_records_core l fresh) cf key)
      (put-IsWritten opts env cf key value ttl core key_fits value_fits works room).log
    ∙ recorded-replay cf key (log_of core cf ++ put_record opts env cf key value ttl ∷ []) fresh
    ∙ ap (λ o. or_else o (recorded fresh cf key))
        (last_record-append cf key (log_of core cf) (put_record opts env cf key value ttl)
          ∙ ap (λ o. or_else o (last_record cf key (log_of core cf)))
              (answer_in-put opts env cf key value ttl))
