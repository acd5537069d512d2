-- ===== src/Engine/Range.antt =====
-- Reads after a range delete of core/engine/mod.rs.
use apex_store.Base.{
  ℕ, ◌≤◌, ◌<◌, String, ◌≡◌, refl, ap, ◌∙◌, Bool, true, false, Option, none, some, List, [], ◌∷◌,
  ◌++◌, arith, keep, string_eq,
}
use mathlib.Core.List.{reverse}
use apex_store.Base.Bytes.{Bytes, bytes_eq}
use apex_store.Base.Dict.{get-insert_self}
use apex_store.Error.{Result, ok}
use apex_store.Merge.Collect.{or_else}
use apex_store.Record
use apex_store.Record.{LogRecord, RangeTombstone, covers}
use apex_store.MemTable
use apex_store.MemTable.{MemTable, maximum, newest_covering, max_covering_range_tombstone}
use apex_store.MemTable.Cover.{IsNewest, NoneCovers, NoneNewer, newest_covering-IsNewest}
use apex_store.Engine.{
  EngineCore, Env, memtables_of, tombstones_of, update_last, with_memtable, add_range,
}
use apex_store.Engine.Write.{delete_range_cf, in_family}
use apex_store.Engine.Read.{
  hides, covering_in, later, find_record, covering_range_tombstone_ts, visible_value, get_found,
  get_cf,
}
use apex_store.Engine.Lookup.{
  SameRead, get_cf-from, get_cf-same, find_record-update_last, covering_in-update_last,
}
use apex_store.Engine.Point.{memtables_of-same}
use apex_store.Engine.Same.{memtables_of-SameData, SameData-SameRead}
use apex_store.Engine.Logged.{WalWorks, SameData, logged_core, logged_core-SameData, logged-ok}

NoneCovers-last :
    (key : Bytes) (ts : List RangeTombstone) (t : RangeTombstone)
    → NoneCovers key (ts ++ t ∷ [])
    → covers t key ≡ false
NoneCovers-last key [] t h = h.0
NoneCovers-last key (u ∷ ts) t h = NoneCovers-last key ts t h.1

NoneNewer-last :
    (key : Bytes) (n : ℕ) (ts : List RangeTombstone) (t : RangeTombstone)
    → NoneNewer key n (ts ++ t ∷ [])
    → covers t key ≡ true
    → t.timestamp ≤ n
NoneNewer-last key n [] t h c = h.0 c
NoneNewer-last key n (u ∷ ts) t h c = NoneNewer-last key n ts t h.1 c

hides-later : (n w : ℕ) (b : Option ℕ) → w < n → hides (later (some n) b) w ≡ true
hides-later n w none h = ground arith
hides-later n w (some m) h = ground arith

-- A tombstone at the end of the list hides what was written before it.
hides-newest :
    (key : Bytes) (ts : List RangeTombstone) (t : RangeTombstone) (w : ℕ) (b o : Option ℕ)
    → covers t key ≡ true
    → w < t.timestamp
    → IsNewest key (ts ++ t ∷ []) o
    → hides (later o b) w ≡ true
hides-newest key ts t w b none c lt h = absurd (ground (arith, c, NoneCovers-last key ts t h))
hides-newest key ts t w b (some n) c lt h =
    hides-later n w b (omega (arith, NoneNewer-last key n ts t h.1 c))

newest_covering-uncovered :
    (key : Bytes) (ts : List RangeTombstone) (t : RangeTombstone)
    → covers t key ≡ false
    → newest_covering key (ts ++ t ∷ []) ≡ newest_covering key ts
unfolding newest_covering
newest_covering-uncovered key ts t c = ap maximum (kept ts)
  where
    kept :
        (us : List RangeTombstone)
        → keep (λ u. covers u key) (λ u. u.timestamp) (us ++ t ∷ [])
          ≡ keep (λ u. covers u key) (λ u. u.timestamp) us
    kept [] = rw (c, keep) refl
    kept (u ∷ us) = ground (arith, kept us)

unfoldable pub insert_range : String → RangeTombstone → EngineCore → EngineCore
unfolding with_memtable add_range
insert_range cf t core = with_memtable cf (MemTable.add_range_tombstone t) (add_range cf t core)

keep_cover-uncovered :
    (key : Bytes) (t : RangeTombstone) (m : MemTable)
    → covers t key ≡ false
    → max_covering_range_tombstone key (MemTable.add_range_tombstone t m)
      ≡ max_covering_range_tombstone key m
unfolding max_covering_range_tombstone MemTable.add_range_tombstone
keep_cover-uncovered key t m c = newest_covering-uncovered key m.range_tombstones t c

pub get-range :
    (key : Bytes) (t : RangeTombstone) (m : MemTable)
    → MemTable.get key (MemTable.add_range_tombstone t m) ≡ or_else none (MemTable.get key m)
unfolding MemTable.get MemTable.add_range_tombstone
get-range key t m = refl

module _ (cf : String) (t : RangeTombstone) (core : EngineCore) where
  tombstones-range : tombstones_of (insert_range cf t core) cf ≡ tombstones_of core cf ++ t ∷ []
  unfolding insert_range with_memtable add_range
  tombstones-range =
      rw (get-insert_self cf (tombstones_of core cf ++ t ∷ []) core.range_tombstones, tombstones_of)
        refl

  memtables-range :
      memtables_of (insert_range cf t core) cf
      ≡ update_last (MemTable.add_range_tombstone t) (memtables_of core cf)
  unfolding insert_range add_range
  memtables-range = memtables_of-same cf (MemTable.add_range_tombstone t) (add_range cf t core)

  find-range :
      (key : Bytes)
      → find_record key (reverse (memtables_of (insert_range cf t core) cf))
        ≡ find_record key (reverse (memtables_of core cf))
  find-range key =
      ap (λ (ms : List MemTable). find_record key (reverse ms)) memtables-range
      ∙ find_record-update_last (MemTable.add_range_tombstone t) key none (memtables_of core cf)
          (get-range key t)

  covering-range :
      (key : Bytes)
      → covering_range_tombstone_ts (insert_range cf t core) cf key
        ≡ later (newest_covering key (tombstones_of core cf ++ t ∷ [])) (
            maximum (
              covering_in key
                (update_last (MemTable.add_range_tombstone t) (memtables_of core cf))))
  unfolding covering_range_tombstone_ts
  covering-range key =
      ap
        (λ (ms : List MemTable).
          later (newest_covering key (tombstones_of (insert_range cf t core) cf))
            (maximum (covering_in key ms)))
        memtables-range
      ∙ ap
          (λ (ts : List RangeTombstone). later (newest_covering key ts) (
            maximum (
              covering_in key
                (update_last (MemTable.add_range_tombstone t) (memtables_of core cf)))))
          tombstones-range

  SameRead-range :
      (key : Bytes) → covers t key ≡ false → SameRead cf key (insert_range cf t core) core
  unfolding covering_range_tombstone_ts
  SameRead-range key c = record {
    files = unfold insert_range with_memtable add_range in refl;
    version_set = unfold insert_range with_memtable add_range in refl;
    covering =
        covering-range key
        ∙ ap
            (λ (o : Option ℕ). later o (
              maximum (
                covering_in key
                  (update_last (MemTable.add_range_tombstone t) (memtables_of core cf)))))
            (newest_covering-uncovered key (tombstones_of core cf) t c)
        ∙ ap (λ (os : List ℕ). later (newest_covering key (tombstones_of core cf)) (maximum os))
            (covering_in-update_last (MemTable.add_range_tombstone t) key (memtables_of core cf)
              (λ m. keep_cover-uncovered key t m c));
    record_found = find-range key;
  }

  visible-range :
      (key : Bytes) (now : ℕ) (r : LogRecord)
      → covers t key ≡ true
      → r.timestamp < t.timestamp
      → visible_value (covering_range_tombstone_ts (insert_range cf t core) cf key) now r ≡ none
  unfolding visible_value
  visible-range key now r c older = rw (hidden, visible_value) refl
    where
      hidden :
          hides (covering_range_tombstone_ts (insert_range cf t core) cf key) r.timestamp ≡ true
      hidden =
          ap (λ (o : Option ℕ). hides o r.timestamp) (covering-range key)
          ∙ hides-newest key (tombstones_of core cf) t r.timestamp
              (maximum (
                covering_in key
                  (update_last (MemTable.add_range_tombstone t) (memtables_of core cf))))
              (newest_covering key (tombstones_of core cf ++ t ∷ [])) c older
              (newest_covering-IsNewest key (tombstones_of core cf ++ t ∷ []))

  get_cf-range :
      (env : Env) (key : Bytes) (r : LogRecord)
      → covers t key ≡ true
      → find_record key (reverse (memtables_of core cf)) ≡ some r
      → r.timestamp < t.timestamp
      → (get_cf env cf key (insert_range cf t core)).0 ≡ ok none
  unfolding get_found
  get_cf-range env key r c found older =
      ap (λ (p : Result (Option Bytes) × EngineCore). p.0)
        (get_cf-from env cf key (insert_range cf t core)
          (covering_range_tombstone_ts (insert_range cf t core) cf key) (some r) refl
          (find-range key ∙ found))
      ∙ ap ok (visible-range key env.now r c older)

-- The tombstone of a range delete.
abbrev pub range_of : Env → Bytes → Bytes → RangeTombstone
range_of env start stop = record { start_key = start; end_key = stop; timestamp = env.now }

delete_range_cf-ran :
    (env : Env) (cf : String) (start stop : Bytes) (core : EngineCore)
    → WalWorks env
    → delete_range_cf env cf start stop core ≡ (
      ok false,
      insert_range cf (range_of env start stop) (
          logged_core cf
            (in_family cf (Record.range_tombstone env.second_now start stop) ∷ [])
            core),
    )
unfolding delete_range_cf insert_range
delete_range_cf-ran env cf start stop core works =
    logged-ok env cf (in_family cf (Record.range_tombstone env.second_now start stop)) []
      (λ core'. (ok false, insert_range cf (range_of env start stop) core')) core works

-- After a range delete with a log that takes appends, a key of the range whose record in the memtables
-- is older than the range tombstone reads as absent.
pub get_cf-delete_range :
    (env env' : Env) (cf : String) (start stop key : Bytes) (r : LogRecord) (core : EngineCore)
    → WalWorks env
    → covers (range_of env start stop) key ≡ true
    → find_record key (reverse (memtables_of core cf)) ≡ some r
    → r.timestamp < env.now
    → (get_cf env' cf key (delete_range_cf env cf start stop core).1).0 ≡ ok none
get_cf-delete_range env env' cf start stop key r core works covered found older =
    ap (λ (out : Result Bool × EngineCore). (get_cf env' cf key out.1).0)
      (delete_range_cf-ran env cf start stop core works)
    ∙ get_cf-range cf (range_of env start stop) logged' env' key r covered
        (ap (λ (ms : List MemTable). find_record key (reverse ms))
            (memtables_of-SameData cf logged' core same)
          ∙ found)
        older
  where
    logged' : EngineCore
    logged' =
        logged_core cf (in_family cf (Record.range_tombstone env.second_now start stop) ∷ []) core

    same : SameData logged' core
    same =
        logged_core-SameData cf
          (in_family cf (Record.range_tombstone env.second_now start stop) ∷ []) core

-- After a range delete with a log that takes appends, a key of the same column family outside the
-- range reads as before.
pub get_cf-outside_range :
    (env env' : Env) (cf : String) (start stop key : Bytes) (core : EngineCore)
    → WalWorks env
    → covers (range_of env start stop) key ≡ false
    → (get_cf env' cf key (delete_range_cf env cf start stop core).1).0
      ≡ (get_cf env' cf key core).0
get_cf-outside_range env env' cf start stop key core works outside =
    ap (λ (out : Result Bool × EngineCore). (get_cf env' cf key out.1).0)
      (delete_range_cf-ran env cf start stop core works)
    ∙ get_cf-same env' cf key (insert_range cf (range_of env start stop) logged') logged'
        (SameRead-range cf (range_of env start stop) logged' key outside)
    ∙ get_cf-same env' cf key logged' core (SameData-SameRead cf key logged' core same)
  where
    logged' : EngineCore
    logged' =
        logged_core cf (in_family cf (Record.range_tombstone env.second_now start stop) ∷ []) core

    same : SameData logged' core
    same =
        logged_core-SameData cf
          (in_family cf (Record.range_tombstone env.second_now start stop) ∷ []) core
