-- ===== src/Engine/Read.antt =====
-- The point read of core/engine/mod.rs.
use apex_store.Base.{
  ℕ, max, String, Bool, false, not, ◌&&◌, Option, none, some, List, [], ◌∷◌, length, ltb, leb,
  if◌then◌else◌, ◌==◌, nat_eq,
}
use mathlib.Core.List.{reverse}
use apex_store.Base.Bytes.{Bytes}
use apex_store.Base.Words.{of_le_bytes}
use apex_store.Error.{Result, ok, err}
use apex_store.Record.{LogRecord, is_expired_at}
use apex_store.MemTable
use apex_store.MemTable.{MemTable, maximum, newest_covering, max_covering_range_tombstone}
use apex_store.Version
use apex_store.Version.{VersionSet}
use apex_store.Engine.{EngineCore, Env, memtables_of, tombstones_of}
use apex_store.Engine.Flush.{ttl_key}

-- `filter_map` of the memtables' newest covering tombstones.
unfoldable pub covering_in : Bytes → List MemTable → List ℕ
unfolding max_covering_range_tombstone
covering_in key [] = []
covering_in key (m ∷ ms) = elim (max_covering_range_tombstone key m) [
  | none ↦ covering_in key ms
  | some t ↦ t ∷ covering_in key ms
]

abbrev pub later : Option ℕ → Option ℕ → Option ℕ
later none b = b
later (some a) none = some a
later (some a) (some b) = some (max a b)

unfoldable pub covering_range_tombstone_ts : EngineCore → String → Bytes → Option ℕ
unfolding covering_in maximum newest_covering
covering_range_tombstone_ts core cf key =
    later (newest_covering key (tombstones_of core cf))
      (maximum (covering_in key (memtables_of core cf)))

-- The first hit of the loop over the memtables.
unfoldable pub find_record : Bytes → List MemTable → Option LogRecord
unfolding MemTable.get
find_record key [] = none
find_record key (m ∷ ms) = elim (MemTable.get key m) [ some r ↦ some r | none ↦ find_record key ms ]

-- Is the tombstone's time past the record's?
abbrev pub hides : Option ℕ → ℕ → Bool
hides none written = false
hides (some ts) written = ltb written ts

-- The answer that a record in a memtable gives.
unfoldable pub visible_value : Option ℕ → ℕ → LogRecord → Option Bytes
unfolding is_expired_at
visible_value covering now r =
    if hides covering r.timestamp
    then none
    else if r.is_deleted
    then none
    else if is_expired_at r now
    then none
    else some r.value

-- A persisted record under a covering range tombstone.
unfoldable pub persisted_value : ℕ → ℕ → Option LogRecord → Option Bytes
unfolding is_expired_at
persisted_value ts now none = none
persisted_value ts now (some r) =
    if not r.is_deleted && (not (is_expired_at r now) && leb ts r.timestamp)
    then some r.value
    else none

-- The TTL side table, read for a value that was found.
unfoldable pub ttl_filter : ℕ → Option Bytes → Option Bytes → Option Bytes
unfolding of_le_bytes
ttl_filter now none found = found
ttl_filter now (some expiry) found =
    if length expiry == 16 then (if leb (of_le_bytes expiry) now then none else found) else found

unfoldable pub check_ttl :
    Env
    → String
    → Bytes
    → Option Bytes × VersionSet
    → EngineCore
    → Result (Option Bytes) × EngineCore
unfolding ttl_filter
check_ttl env cf key (none, vs) core = (ok none, record core { version_set = vs })
check_ttl env cf key (some v, vs) core =
    let (expiry, vs') = Version.get core.files env.now cf (ttl_key env key) vs in
    (ok (ttl_filter env.second_now expiry (some v)), record core { version_set = vs' })

-- What `get_record` found goes through the filter; its error is returned.
unfoldable pub check_record :
    Env
    → String
    → Bytes
    → ℕ
    → Result (Option LogRecord)
    → EngineCore
    → Result (Option Bytes) × EngineCore
unfolding check_ttl persisted_value
check_record env cf key ts (err e) core = (err e, core)
check_record env cf key ts (ok r) core =
    check_ttl env cf key (persisted_value ts env.now r, core.version_set) core

unfoldable pub get_persisted :
    Env → String → Bytes → Option ℕ → EngineCore → Result (Option Bytes) × EngineCore
unfolding check_record
get_persisted env cf key none core =
    check_ttl env cf key (Version.get core.files env.now cf key core.version_set) core
get_persisted env cf key (some ts) core =
    check_record env cf key ts (Version.get_record core.files cf key core.version_set) core

-- A record of a memtable decides the read; without one the tables do.
unfoldable pub get_found :
    Env
    → String
    → Bytes
    → Option ℕ
    → Option LogRecord
    → EngineCore
    → Result (Option Bytes) × EngineCore
unfolding get_persisted visible_value
get_found env cf key covering (some r) core = (ok (visible_value covering env.now r), core)
get_found env cf key covering none core = get_persisted env cf key covering core

-- `get_cf`; the state that comes back has the lookups' effects on the caches.
unfoldable pub get_cf : Env → String → Bytes → EngineCore → Result (Option Bytes) × EngineCore
unfolding covering_range_tombstone_ts find_record get_found
get_cf env cf key core =
    get_found env cf key (covering_range_tombstone_ts core cf key)
      (find_record key (reverse (memtables_of core cf))) core
