-- ===== src/Engine/Indexed.antt =====
-- A put of core/engine/mod.rs with the entries of the secondary indexes that follow it.
use apex_store.Base.{
  ℕ, ◌+◌, ◌≤◌, ◌<◌, String, ◌≡◌, refl, sym, ap, ◌∙◌, subst, Bool, true, false, ◌&&◌, Option, none,
  some, List, [], ◌∷◌, ◌++◌, map, All, arith, length, if◌then◌else◌, ◌==◌, string_eq, append_assoc,
  append-nil, Option-cases, inl, inr,
}
use apex_store.Base.Bytes.{Bytes, bytes_eq}
use apex_store.Error.{Result, ok, err}
use apex_store.Record.{LogRecord}
use apex_store.Merge.Collect.{or_else}
use apex_store.Base.Dict
use apex_store.Version.{VersionSet}
use apex_store.Engine.{
  EngineOptions, EngineCore, Env, write_buffer_limit, bytes_of, log_of, add_bytes, with_memtable,
}
use apex_store.Engine.Write.{
  max_key_size, max_value_size, put_record, put_cf_with_ttl_inner, put_entries, searched,
  update_indexes, put_with_indexes,
}
use apex_store.Engine.Read.{covering_range_tombstone_ts, visible_value, get_cf}
use apex_store.Engine.Logged.{WalWorks, opened_core, logged_core}
use apex_store.Engine.Point.{answer, insert_point}
use apex_store.Engine.Put.{IsWritten, put-IsWritten, put-ran}

-- The last record of a key.
abbrev pub last_of : Bytes → List LogRecord → Option LogRecord
last_of key [] = none
last_of key (r ∷ rs) = or_else (last_of key rs) (answer r key)

-- The read of a key after records were written to a column family: the key's last record among them
-- answers it, as the range tombstones and the time allow, and without one the state before does.
abbrev pub read_over :
    String → List LogRecord → EngineCore → Env → String → Bytes → Result (Option Bytes)
read_over cf rs core env cf' key = elim (if cf == cf' then last_of key rs else none) [
  | some r ↦ ok (visible_value (covering_range_tombstone_ts core cf key) env.now r)
  | none ↦ (get_cf env cf' key core).0
]

-- What writes of records of some bytes in all promise of the state after them.
pub record IsStored (cf : String) (rs : List LogRecord) (n : ℕ) (core out : EngineCore)
    : Type 0 where
  pub log : log_of out cf ≡ log_of core cf ++ rs
  pub bytes : bytes_of out cf ≡ bytes_of core cf + n
  pub covering :
      (key : Bytes)
      → covering_range_tombstone_ts out cf key ≡ covering_range_tombstone_ts core cf key
  pub reads :
      (env : Env) (cf' : String) (key : Bytes)
      → (get_cf env cf' key out).0 ≡ read_over cf rs core env cf' key

nothing-IsStored : (cf : String) (core : EngineCore) → IsStored cf [] 0 core core
nothing-IsStored cf core = record {
  log = sym (append-nil (log_of core cf));
  bytes = omega arith;
  covering = λ key. refl;
  reads = λ env cf' key.
      split (cf == cf') (get_cf env cf' key core).0
        (λ (r : LogRecord). ok (visible_value (covering_range_tombstone_ts core cf key) env.now r));
}
  where
    split :
        (b : Bool) (g : Result (Option Bytes)) (f : LogRecord → Result (Option Bytes))
        → g
          ≡ elim (if◌then◌else◌ {A = Option LogRecord} b none none)
              as (λ (o : Option LogRecord). Result (Option Bytes)) [ some r ↦ f r | none ↦ g ]
    split true g f = refl
    split false g f = refl

-- One record, and then others.
written-IsStored :
    (cf : String) (r : LogRecord) (n m : ℕ) (rs : List LogRecord) (core c : EngineCore)
    (out : Result Bool × EngineCore)
    → IsWritten cf r r n core out
    → IsStored cf rs m out.1 c
    → IsStored cf (r ∷ rs) (n + m) core c
written-IsStored cf r n m rs core c out w s = record {
  log =
      s.log
      ∙ ap (λ (l : List LogRecord). l ++ rs) w.log
      ∙ append_assoc (log_of core cf) (r ∷ []) rs;
  bytes = omega (arith, s.bytes, w.bytes);
  covering = λ key. s.covering key ∙ w.covering key;
  reads = λ env cf' key.
      s.reads env cf' key
      ∙ split (cf == cf') (r.key == key) r (last_of key rs)
          (covering_range_tombstone_ts out.1 cf key) (covering_range_tombstone_ts core cf key)
          (get_cf env cf' key out.1).0 (get_cf env cf' key core).0 env.now (w.covering key)
          (w.reads env cf' key);
}
  where
    split :
        (a b : Bool) (r : LogRecord) (last : Option LogRecord) (x y : Option ℕ)
        (g h : Result (Option Bytes)) (now : ℕ)
        → x ≡ y
        → g ≡ (if a && b then ok (visible_value y now r) else h)
        → elim (if a then last else none) as (λ (o : Option LogRecord). Result (Option Bytes)) [
          | some q ↦ ok (visible_value x now q)
          | none ↦ g
        ]
          ≡ elim (if a then or_else last (if b then some r else none) else none)
              as (λ (o : Option LogRecord). Result (Option Bytes)) [
                | some q ↦ ok (visible_value y now q)
                | none ↦ h
              ]
    split true b r (some q) x y g h now same e = ap (λ o. ok (visible_value o now q)) same
    split true true r none x y g h now same e = e
    split true false r none x y g h now same e = e
    split false b r last x y g h now same e = e

-- The record that an index entry is written with, and the bytes of the entries.
abbrev pub entry_record : EngineOptions → String → Env × Bytes → LogRecord
entry_record opts cf p = put_record opts p.0 cf p.1 [] none

abbrev pub entry_bytes : List (Env × Bytes) → ℕ
entry_bytes [] = 0
entry_bytes (p ∷ ps) = length p.1 + entry_bytes ps

-- The log takes the entry, and its key is not too long.
pub record CanIndex (p : Env × Bytes) : Type 0 where
  pub wal : WalWorks p.0
  pub key_fits : length p.1 ≤ max_key_size

put_entries-IsStored :
    (opts : EngineOptions) (cf : String) (entries : List (Env × Bytes)) (core : EngineCore)
    → All CanIndex entries
    → bytes_of core cf + entry_bytes entries < write_buffer_limit opts
    → IsStored cf
        (map (entry_record opts cf) entries)
        (entry_bytes entries)
        core
        (put_entries opts cf entries core)
unfolding put_entries
put_entries-IsStored opts cf [] core can room = nothing-IsStored cf core
put_entries-IsStored opts cf ((env, entry) ∷ entries) core can room =
    let out = put_cf_with_ttl_inner opts env cf entry [] none core in
    let w =
      put-IsWritten opts env cf entry [] none core can.0.key_fits (omega arith) can.0.wal
        (omega (arith, room)) in
    let rest = put_entries-IsStored opts cf entries out.1 can.1 (omega (arith, room, w.bytes)) in
    let all =
      written-IsStored cf (put_record opts env cf entry [] none) (length entry + 0)
        (entry_bytes entries) (map (entry_record opts cf) entries) core
        (put_entries opts cf entries out.1) out w rest in
    let counted : length entry + 0 + entry_bytes entries ≡ length entry + entry_bytes entries =
      omega arith in
    subst
      (λ (n : ℕ).
        IsStored cf (map (entry_record opts cf) ((env, entry) ∷ entries)) n core
          (elim out.0 as (λ q. EngineCore) [
            | err e ↦ out.1
            | ok compacts ↦ put_entries opts cf entries out.1
          ]))
      counted
      (subst
        (λ (d : Result Bool).
          IsStored cf (map (entry_record opts cf) ((env, entry) ∷ entries))
            (length entry + 0 + entry_bytes entries) core
            (elim d as (λ q. EngineCore) [
              | err e ↦ out.1
              | ok compacts ↦ put_entries opts cf entries out.1
            ]))
        (sym w.result) all)

-- A search commutes with the writing of a record.
searched-logged :
    (cf : String) (rs : List LogRecord) (search : VersionSet → VersionSet) (core : EngineCore)
    → searched search (logged_core cf rs core) ≡ logged_core cf rs (searched search core)
unfolding logged_core opened_core
searched-logged cf rs search core = elim (Option-cases (Dict.get cf core.wals)) [
  | inl missing ↦ rw (missing, opened_core) refl
  | inr (found, held) ↦ rw (held, opened_core) refl
]

searched-point :
    (cf : String) (r : LogRecord) (n : ℕ) (search : VersionSet → VersionSet) (core : EngineCore)
    → searched search (insert_point cf r n core) ≡ insert_point cf r n (searched search core)
unfolding insert_point add_bytes with_memtable
searched-point cf r n search core = refl

searched-put :
    (opts : EngineOptions) (env : Env) (cf : String) (key value : Bytes) (ttl : Option ℕ)
    (search : VersionSet → VersionSet) (core : EngineCore)
    → length key ≤ max_key_size
    → length value ≤ max_value_size
    → WalWorks env
    → bytes_of core cf + (length key + length value) < write_buffer_limit opts
    → searched search (put_cf_with_ttl_inner opts env cf key value ttl core).1
      ≡ (put_cf_with_ttl_inner opts env cf key value ttl (searched search core)).1
searched-put opts env cf key value ttl search core key_fits value_fits works room =
    let r = put_record opts env cf key value ttl in
    let n = length key + length value in
    ap (λ (p : Result Bool × EngineCore). searched search p.1)
      (put-ran opts env cf key value ttl core key_fits value_fits works room)
    ∙ searched-point cf r n search (logged_core cf (r ∷ []) core)
    ∙ ap (insert_point cf r n) (searched-logged cf (r ∷ []) search core)
    ∙ sym (
        ap (λ (p : Result Bool × EngineCore). p.1)
          (put-ran opts env cf key value ttl (searched search core) key_fits value_fits works room))

-- A put of a key and a value within the size limits and the index entries that follow it, with a log
-- that takes appends, room in the memtable for them all, and entries' keys that are not too long: it
-- asks for no compaction, the log has the put's record and the entries' after what it had, and each
-- read in any column family is answered by the last of these records with its key, in the put's column
-- family, and where there is none by the state before, once the indexed fields were searched in it.
pub put_with_indexes-IsStored :
    (opts : EngineOptions) (env : Env) (cf : String) (key value : Bytes) (ttl : Option ℕ)
    (search : VersionSet → VersionSet) (entries : List (Env × Bytes)) (core : EngineCore)
    → length key ≤ max_key_size
    → length value ≤ max_value_size
    → WalWorks env
    → All CanIndex entries
    → bytes_of core cf + (length key + length value + entry_bytes entries) < write_buffer_limit opts
    → let out = put_with_indexes opts env cf key value ttl search entries core in
      (out.0 ≡ ok false)
      × IsStored cf
          (put_record opts env cf key value ttl ∷ map (entry_record opts cf) entries)
          (length key + length value + entry_bytes entries)
          (searched search core)
          out.1
unfolding put_with_indexes update_indexes
put_with_indexes-IsStored opts env cf key value ttl search entries core key_fits value_fits works
      can room =
    let out = put_cf_with_ttl_inner opts env cf key value ttl core in
    let before = searched search core in
    let out' = put_cf_with_ttl_inner opts env cf key value ttl before in
    let w =
      put-IsWritten opts env cf key value ttl core key_fits value_fits works
        (omega (arith, room)) in
    let w' =
      put-IsWritten opts env cf key value ttl before key_fits value_fits works
        (omega (arith, room)) in
    let rest = put_entries-IsStored opts cf entries out'.1 can (omega (arith, room, w'.bytes)) in
    let stored =
      written-IsStored cf (put_record opts env cf key value ttl) (length key + length value)
        (entry_bytes entries) (map (entry_record opts cf) entries) before
        (put_entries opts cf entries out'.1) out' w' rest in
    subst
      (λ (d : Result Bool).
        let end = elim d as (λ q. Result Bool × EngineCore) [
          | err e ↦ (err e, out.1)
          | ok compacts ↦ (ok compacts, put_entries opts cf entries (searched search out.1))
        ] in
        (end.0 ≡ ok false)
        × IsStored cf (put_record opts env cf key value ttl ∷ map (entry_record opts cf) entries)
            (length key + length value + entry_bytes entries) before end.1)
      (sym w.result)
      (
        refl,
        subst
            (λ (c : EngineCore).
              IsStored cf
                (put_record opts env cf key value ttl ∷ map (entry_record opts cf) entries)
                (length key + length value + entry_bytes entries) before
                (put_entries opts cf entries c))
            (sym (
              searched-put opts env cf key value ttl search core key_fits value_fits works
                (omega (arith, room))))
            stored,
      )
