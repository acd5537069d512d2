-- ===== src/Engine/Same.antt =====
-- States of core/engine/mod.rs that differ in their logs alone, and a write that fills no memtable.
use apex_store.Base.{
  ℕ, ◌+◌, ◌≤◌, ◌<◌, String, ◌≡◌, refl, sym, ap, ◌∙◌, subst, false, none, some, List, [], ◌∷◌, arith,
  ltb, leb, string_eq,
}
use mathlib.Core.List.{reverse}
use apex_store.Base.Bytes.{Bytes, bytes_eq}
use apex_store.Base.Dict
use apex_store.Base.Dict.{Dict, get-insert_self}
use apex_store.Error.{ok}
use apex_store.Record.{LogRecord, RangeTombstone}
use apex_store.MemTable.{MemTable, maximum, newest_covering}
use apex_store.Engine.{
  EngineOptions, EngineCore, Env, write_buffer_limit, memtables_of, tombstones_of, bytes_of,
  with_memtable, add_bytes, log_of,
}
use apex_store.Engine.Write.{flush_if_full, logged}
use apex_store.Engine.Read.{covering_in, later, find_record, covering_range_tombstone_ts}
use apex_store.Engine.Lookup.{SameRead}
use apex_store.Engine.Logged.{WalWorks, SameData, logged_core, logged_core-SameData, logged-ok}
use apex_store.Engine.Point.{insert_point}

pub leb-below : (a b : ℕ) → a < b → leb b a ≡ false
leb-below a b h = ground arith

pub ltb-fits : (a b : ℕ) → a ≤ b → ltb b a ≡ false
ltb-fits a b h = ground arith

pub memtables_of-SameData :
    (cf : String) (a b : EngineCore) → SameData a b → memtables_of a cf ≡ memtables_of b cf
memtables_of-SameData cf a b same =
    ap (λ (m : Dict String (List MemTable)). elim (Dict.get cf m) [ none ↦ [] | some ms ↦ ms ])
      same.memtables

pub tombstones_of-SameData :
    (cf : String) (a b : EngineCore) → SameData a b → tombstones_of a cf ≡ tombstones_of b cf
tombstones_of-SameData cf a b same =
    ap
      (λ (m : Dict String (List RangeTombstone)). elim (Dict.get cf m) [ none ↦ [] | some ts ↦ ts ])
      same.range_tombstones

pub bytes_of-SameData :
    (cf : String) (a b : EngineCore) → SameData a b → bytes_of a cf ≡ bytes_of b cf
bytes_of-SameData cf a b same =
    ap (λ (m : Dict String ℕ). elim (Dict.get cf m) [ none ↦ 0 | some n ↦ n ]) same.memtable_bytes

pub covering-SameData :
    (cf : String) (key : Bytes) (a b : EngineCore)
    → SameData a b
    → covering_range_tombstone_ts a cf key ≡ covering_range_tombstone_ts b cf key
unfolding covering_range_tombstone_ts
covering-SameData cf key a b same =
    ap
      (λ (ts : List RangeTombstone).
        later (newest_covering key ts) (maximum (covering_in key (memtables_of a cf))))
      (tombstones_of-SameData cf a b same)
    ∙ ap
        (λ (ms : List MemTable).
          later (newest_covering key (tombstones_of b cf)) (maximum (covering_in key ms)))
        (memtables_of-SameData cf a b same)

pub SameData-SameRead :
    (cf : String) (key : Bytes) (a b : EngineCore) → SameData a b → SameRead cf key a b
SameData-SameRead cf key a b same = record {
  files = same.files;
  version_set = same.version_set;
  covering = covering-SameData cf key a b same;
  record_found =
      ap (λ (ms : List MemTable). find_record key (reverse ms)) (memtables_of-SameData cf a b same);
}

pub flush_if_full-short :
    (opts : EngineOptions) (env : Env) (cf : String) (core : EngineCore)
    → bytes_of core cf < write_buffer_limit opts
    → flush_if_full opts env cf core ≡ (ok false, core)
unfolding flush_if_full
flush_if_full-short opts env cf core h =
    rw (leb-below (bytes_of core cf) (write_buffer_limit opts) h, flush_if_full) refl

pub bytes_of-insert_point :
    (cf : String) (r : LogRecord) (n : ℕ) (core : EngineCore)
    → bytes_of (insert_point cf r n core) cf ≡ bytes_of core cf + n
unfolding insert_point add_bytes
bytes_of-insert_point cf r n core =
    rw (get-insert_self cf (bytes_of core cf + n) core.memtable_bytes, bytes_of) refl

pub log_of-insert_point :
    (cf cf' : String) (r : LogRecord) (n : ℕ) (core : EngineCore)
    → log_of (insert_point cf r n core) cf' ≡ log_of core cf'
unfolding insert_point add_bytes with_memtable
log_of-insert_point cf cf' r n core = refl

-- A record written to the log and to a memtable with room.
pub write_point-ran :
    (opts : EngineOptions) (env : Env) (cf : String) (l r : LogRecord) (n : ℕ) (core : EngineCore)
    → WalWorks env
    → bytes_of core cf + n < write_buffer_limit opts
    → logged env cf (l ∷ []) (λ core'. flush_if_full opts env cf (insert_point cf r n core')) core
      ≡ (ok false, insert_point cf r n (logged_core cf (l ∷ []) core))
write_point-ran opts env cf l r n core works room =
    logged-ok env cf l [] (λ core'. flush_if_full opts env cf (insert_point cf r n core')) core
      works
    ∙ flush_if_full-short opts env cf (insert_point cf r n start) short
  where
    start : EngineCore
    start = logged_core cf (l ∷ []) core

    short : bytes_of (insert_point cf r n start) cf < write_buffer_limit opts
    short =
        subst (λ x. x < write_buffer_limit opts)
          (sym (
            bytes_of-insert_point cf r n start
            ∙ ap (λ b. b + n)
                (bytes_of-SameData cf start core (logged_core-SameData cf (l ∷ []) core))))
          room
