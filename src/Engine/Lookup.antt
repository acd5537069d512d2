-- ===== src/Engine/Lookup.antt =====
-- Reads of core/engine/mod.rs under changes of the last memtable and of the tombstone lists.
use apex_store.Base.{
  ℕ, String, ◌≡◌, refl, sym, ap, ◌∙◌, Option, none, some, List, [], ◌∷◌, ◌++◌, arith, string_eq,
}
use mathlib.Core.List.{reverse, reverse-append}
use apex_store.Base.Bytes.{Bytes, bytes_eq}
use apex_store.Base.Dict
use apex_store.Base.Dict.{get-insert}
use apex_store.Error.{Result, ok, err}
use apex_store.Merge.Collect.{or_else}
use apex_store.Record.{LogRecord}
use apex_store.MemTable
use apex_store.MemTable.{MemTable, maximum, newest_covering, max_covering_range_tombstone}
use apex_store.Version
use apex_store.Version.{VersionSet, Files}
use apex_store.Engine.{EngineCore, Env, memtables_of, update_last}
use apex_store.Engine.Flush.{ttl_key}
use apex_store.Engine.Read.{
  covering_in, covering_range_tombstone_ts, find_record, check_ttl, check_record, get_persisted,
  persisted_value, ttl_filter, visible_value, get_found, get_cf,
}

-- What a read returns and leaves in the version set.
abbrev pub seen : Result (Option Bytes) × EngineCore → Result (Option Bytes) × VersionSet
seen p = (p.0, p.1.version_set)

check_ttl-files :
    (env : Env) (cf : String) (key : Bytes) (p : Option Bytes × VersionSet) (a b : EngineCore)
    → a.files ≡ b.files
    → seen (check_ttl env cf key p a) ≡ seen (check_ttl env cf key p b)
unfolding check_ttl
check_ttl-files env cf key (none, vs) a b h = refl
check_ttl-files env cf key (some v, vs) a b h =
    ap
      (λ (f : Files).
        let (expiry, vs') = Version.get f env.now cf (ttl_key env key) vs in
        (ok (ttl_filter env.second_now expiry (some v)), vs'))
      h

-- The state with only what a read of the tables uses.
abbrev tables_only : Files → VersionSet → EngineCore
tables_only files vs = record {
  memtables = [];
  memtable_bytes = [];
  version_set = vs;
  wals = [];
  range_tombstones = [];
  files = files;
}

check_record-only :
    (env : Env) (cf : String) (key : Bytes) (ts : ℕ) (r : Result (Option LogRecord))
    (core : EngineCore)
    → seen (check_record env cf key ts r core)
      ≡ seen (check_record env cf key ts r (tables_only core.files core.version_set))
unfolding check_record
check_record-only env cf key ts (err e) core = refl
check_record-only env cf key ts (ok r) core =
    check_ttl-files env cf key (persisted_value ts env.now r, core.version_set) core
      (tables_only core.files core.version_set) refl

get_persisted-only :
    (env : Env) (cf : String) (key : Bytes) (o : Option ℕ) (core : EngineCore)
    → seen (get_persisted env cf key o core)
      ≡ seen (get_persisted env cf key o (tables_only core.files core.version_set))
unfolding get_persisted
get_persisted-only env cf key none core =
    check_ttl-files env cf key (Version.get core.files env.now cf key core.version_set) core
      (tables_only core.files core.version_set) refl
get_persisted-only env cf key (some ts) core =
    check_record-only env cf key ts (Version.get_record core.files cf key core.version_set) core

get_persisted-files :
    (env : Env) (cf : String) (key : Bytes) (o : Option ℕ) (a b : EngineCore)
    → a.files ≡ b.files
    → a.version_set ≡ b.version_set
    → seen (get_persisted env cf key o a) ≡ seen (get_persisted env cf key o b)
get_persisted-files env cf key o a b f v =
    get_persisted-only env cf key o a
    ∙ ap (λ (x : Files). seen (get_persisted env cf key o (tables_only x a.version_set))) f
    ∙ ap (λ (x : VersionSet). seen (get_persisted env cf key o (tables_only b.files x))) v
    ∙ sym (get_persisted-only env cf key o b)

get_found-files :
    (env : Env) (cf : String) (key : Bytes) (o : Option ℕ) (r : Option LogRecord) (a b : EngineCore)
    → a.files ≡ b.files
    → a.version_set ≡ b.version_set
    → seen (get_found env cf key o r a) ≡ seen (get_found env cf key o r b)
unfolding get_found
get_found-files env cf key o none a b f v = get_persisted-files env cf key o a b f v
get_found-files env cf key o (some r) a b f v =
    ap (λ (vs : VersionSet). (ok (visible_value o env.now r), vs)) v

-- What a read of a key in a column family depends on.
pub record SameRead (cf : String) (key : Bytes) (a b : EngineCore) : Type 0 where
  pub files : a.files ≡ b.files
  pub version_set : a.version_set ≡ b.version_set
  pub covering : covering_range_tombstone_ts a cf key ≡ covering_range_tombstone_ts b cf key
  pub record_found :
      find_record key (reverse (memtables_of a cf)) ≡ find_record key (reverse (memtables_of b cf))

-- The read with the tombstone's time and the record that it starts from written out.
pub get_cf-from :
    (env : Env) (cf : String) (key : Bytes) (core : EngineCore) (o : Option ℕ)
    (r : Option LogRecord)
    → covering_range_tombstone_ts core cf key ≡ o
    → find_record key (reverse (memtables_of core cf)) ≡ r
    → get_cf env cf key core ≡ get_found env cf key o r core
unfolding get_cf
get_cf-from env cf key core o r p q =
    ap
      (λ (x : Option ℕ).
        get_found env cf key x (find_record key (reverse (memtables_of core cf))) core)
      p
    ∙ ap (λ (x : Option LogRecord). get_found env cf key o x core) q

pub seen-same :
    (env : Env) (cf : String) (key : Bytes) (a b : EngineCore)
    → SameRead cf key a b
    → seen (get_cf env cf key a) ≡ seen (get_cf env cf key b)
seen-same env cf key a b h =
    ap seen (
      get_cf-from env cf key a (covering_range_tombstone_ts b cf key)
        (find_record key (reverse (memtables_of b cf))) h.covering h.record_found)
    ∙ get_found-files env cf key (covering_range_tombstone_ts b cf key)
        (find_record key (reverse (memtables_of b cf))) a b h.files h.version_set
    ∙ ap seen (
        sym (
          get_cf-from env cf key b (covering_range_tombstone_ts b cf key)
            (find_record key (reverse (memtables_of b cf))) refl refl))

pub get_cf-same :
    (env : Env) (cf : String) (key : Bytes) (a b : EngineCore)
    → SameRead cf key a b
    → (get_cf env cf key a).0 ≡ (get_cf env cf key b).0
get_cf-same env cf key a b h =
    ap (λ (p : Result (Option Bytes) × VersionSet). p.0) (seen-same env cf key a b h)

-- A read changes nothing but the version set.
abbrev KeepsRest : EngineCore → Result (Option Bytes) × EngineCore → Type 0
KeepsRest core p = p.1 ≡ record core { version_set = p.1.version_set }

check_ttl-KeepsRest :
    (env : Env) (cf : String) (key : Bytes) (p : Option Bytes × VersionSet) (core : EngineCore)
    → KeepsRest core (check_ttl env cf key p core)
unfolding check_ttl
check_ttl-KeepsRest env cf key (none, vs) core = refl
check_ttl-KeepsRest env cf key (some v, vs) core = refl

check_record-KeepsRest :
    (env : Env) (cf : String) (key : Bytes) (ts : ℕ) (r : Result (Option LogRecord))
    (core : EngineCore)
    → KeepsRest core (check_record env cf key ts r core)
unfolding check_record
check_record-KeepsRest env cf key ts (err e) core = refl
check_record-KeepsRest env cf key ts (ok r) core =
    check_ttl-KeepsRest env cf key (persisted_value ts env.now r, core.version_set) core

get_persisted-KeepsRest :
    (env : Env) (cf : String) (key : Bytes) (o : Option ℕ) (core : EngineCore)
    → KeepsRest core (get_persisted env cf key o core)
unfolding get_persisted
get_persisted-KeepsRest env cf key none core =
    check_ttl-KeepsRest env cf key (Version.get core.files env.now cf key core.version_set) core
get_persisted-KeepsRest env cf key (some ts) core =
    check_record-KeepsRest env cf key ts (Version.get_record core.files cf key core.version_set)
      core

get_found-KeepsRest :
    (env : Env) (cf : String) (key : Bytes) (o : Option ℕ) (r : Option LogRecord)
    (core : EngineCore)
    → KeepsRest core (get_found env cf key o r core)
unfolding get_found
get_found-KeepsRest env cf key o none core = get_persisted-KeepsRest env cf key o core
get_found-KeepsRest env cf key o (some r) core = refl

pub get_cf-KeepsRest :
    (env : Env) (cf : String) (key : Bytes) (core : EngineCore)
    → KeepsRest core (get_cf env cf key core)
unfolding get_cf
get_cf-KeepsRest env cf key core =
    get_found-KeepsRest env cf key (covering_range_tombstone_ts core cf key)
      (find_record key (reverse (memtables_of core cf))) core

find_record-append :
    (key : Bytes) (xs ys : List MemTable)
    → find_record key (xs ++ ys) ≡ or_else (find_record key xs) (find_record key ys)
unfolding find_record
find_record-append key [] ys = refl
find_record-append key (m ∷ xs) ys = ground (arith, find_record-append key xs ys)

find_record-nil : (key : Bytes) → find_record key [] ≡ none
unfolding find_record
find_record-nil key = refl

find_record-alone : (key : Bytes) (m : MemTable) → find_record key (m ∷ []) ≡ MemTable.get key m
unfolding find_record
find_record-alone key m = ground arith

find_record-cons :
    (key : Bytes) (m : MemTable) (ms : List MemTable)
    → find_record key (reverse (m ∷ ms))
      ≡ or_else (find_record key (reverse ms)) (MemTable.get key m)
find_record-cons key m ms =
    ap (find_record key) (reverse-append (m ∷ []) ms)
    ∙ find_record-append key (reverse ms) (m ∷ [])
    ∙ ap (or_else (find_record key (reverse ms))) (find_record-alone key m)

get-new_unlimited : (key : Bytes) → MemTable.get key MemTable.new_unlimited ≡ none
unfolding MemTable.get MemTable.new_unlimited Dict.get
get-new_unlimited key = refl

pub or_else_assoc : (a b c : Option LogRecord) → or_else (or_else a b) c ≡ or_else a (or_else b c)
or_else_assoc none b c = refl
or_else_assoc (some a) b c = refl

-- A change of the last memtable that answers a key with `r` if `answers`, and else as before.
abbrev Sets : (MemTable → MemTable) → Bytes → Option LogRecord → Type 0
Sets f key o = (m : MemTable) → MemTable.get key (f m) ≡ or_else o (MemTable.get key m)

pub find_record-update_last :
    (f : MemTable → MemTable) (key : Bytes) (o : Option LogRecord) (ms : List MemTable)
    → Sets f key o
    → find_record key (reverse (update_last f ms)) ≡ or_else o (find_record key (reverse ms))
unfolding update_last
find_record-update_last f key o [] h =
    find_record-alone key (f MemTable.new_unlimited)
    ∙ h MemTable.new_unlimited
    ∙ ap (or_else o) (get-new_unlimited key ∙ sym (find_record-nil key))
find_record-update_last f key o (m ∷ []) h =
    find_record-alone key (f m) ∙ h m ∙ ap (or_else o) (sym (find_record-alone key m))
find_record-update_last f key o (m ∷ n ∷ ms) h =
    find_record-cons key m (update_last f (n ∷ ms))
    ∙ ap (λ x. or_else x (MemTable.get key m)) (find_record-update_last f key o (n ∷ ms) h)
    ∙ or_else_assoc o (find_record key (reverse (n ∷ ms))) (MemTable.get key m)
    ∙ ap (or_else o) (sym (find_record-cons key m (n ∷ ms)))

-- A change of the last memtable that leaves the newest range tombstone over a key.
abbrev KeepsCover : (MemTable → MemTable) → Bytes → Type 0
KeepsCover f key =
    (m : MemTable) → max_covering_range_tombstone key (f m) ≡ max_covering_range_tombstone key m

pub max_covering-same :
    (key : Bytes) (a b : MemTable)
    → a.range_tombstones ≡ b.range_tombstones
    → max_covering_range_tombstone key a ≡ max_covering_range_tombstone key b
unfolding max_covering_range_tombstone
max_covering-same key a b h = ap (newest_covering key) h

covering_in-cons :
    (key : Bytes) (a b : MemTable) (xs ys : List MemTable)
    → max_covering_range_tombstone key a ≡ max_covering_range_tombstone key b
    → covering_in key xs ≡ covering_in key ys
    → covering_in key (a ∷ xs) ≡ covering_in key (b ∷ ys)
unfolding covering_in
covering_in-cons key a b xs ys h k = ground (arith, h, k)

covering_in-new :
    (key : Bytes) (m : MemTable)
    → max_covering_range_tombstone key m ≡ none
    → covering_in key (m ∷ []) ≡ covering_in key []
unfolding covering_in
covering_in-new key m h = rw (h, covering_in)

no_cover-new : (key : Bytes) → max_covering_range_tombstone key MemTable.new_unlimited ≡ none
unfolding MemTable.new_unlimited max_covering_range_tombstone newest_covering
no_cover-new key = refl

pub covering_in-update_last :
    (f : MemTable → MemTable) (key : Bytes) (ms : List MemTable)
    → KeepsCover f key
    → covering_in key (update_last f ms) ≡ covering_in key ms
unfolding update_last
covering_in-update_last f key [] h =
    covering_in-new key (f MemTable.new_unlimited) (h MemTable.new_unlimited ∙ no_cover-new key)
covering_in-update_last f key (m ∷ []) h = covering_in-cons key (f m) m [] [] (h m) refl
covering_in-update_last f key (m ∷ n ∷ ms) h =
    covering_in-cons key m m (update_last f (n ∷ ms)) (n ∷ ms) refl
      (covering_in-update_last f key (n ∷ ms) h)
