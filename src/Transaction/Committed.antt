-- ===== src/Transaction/Committed.antt =====
-- What the commit of core/engine/transaction.rs stores.
use apex_store.Base.{
  ℕ, ◌+◌, ◌≤◌, ◌<◌, String, ◌≡◌, refl, sym, ap, ◌∙◌, subst, Bool, true, false, Option, none, some,
  List, [], ◌∷◌, map, length, arith, leb, All, if◌then◌else◌, ◌==◌, string_eq, Bool-cases, inl, inr,
}
use text.Mathlib.TextEquality.{eq_iff}
use mathlib.Core.List.{reverse}
use apex_store.Base.Bytes.{Bytes, bytes_eq}
use apex_store.Base.Dict
use apex_store.Base.Dict.{Dict, get-insert}
use apex_store.Error.{Result, ok, err}
use apex_store.Merge.Collect.{or_else}
use apex_store.Record
use apex_store.Record.{LogRecord}
use apex_store.MemTable
use apex_store.MemTable.{MemTable}
use apex_store.Engine.{
  EngineOptions, EngineCore, Env, write_buffer_limit, memtables_of, bytes_of, with_memtable,
  add_bytes,
}
use apex_store.Engine.Read.{find_record}
use apex_store.Engine.Write.{in_family}
use apex_store.Engine.Lookup.{or_else_assoc}
use apex_store.Engine.Point.{answer, get-insert_record}
use apex_store.Engine.Logged.{WalWorks, logged_core, logged_core-SameData, logged-ok}
use apex_store.Engine.Same.{bytes_of-SameData, memtables_of-SameData, leb-below}
use apex_store.Engine.Batch.{either_family, recorded-nothing}
use apex_store.Engine.Recover.{recorded, recorded-update}
use apex_store.Transaction.{
  Transaction, TxnWrite, Slot, Group, into_groups, group_writes, write_record, apply_write,
  apply_writes, bytes_added, flush_if_over, flush_memtable_for_cf, commit_group, commit_groups,
  commit,
}

-- The last write of a key among a family's, and among all, as its record.
abbrev last_entry : ℕ → Bytes → List (Bytes × TxnWrite) → Option LogRecord
last_entry now key [] = none
last_entry now key (e ∷ es) = or_else (last_entry now key es) (answer (write_record now e) key)

abbrev pub last_write : ℕ → String → Bytes → Dict Slot TxnWrite → Option LogRecord
last_write now cf key [] = none
last_write now cf key ((slot, w) ∷ ws) =
    or_else (last_write now cf key ws)
      (if slot.0 == cf then answer (write_record now (slot.1, w)) key else none)

abbrev last_grouped : ℕ → String → Bytes → List Group → Option LogRecord
last_grouped now cf key [] = none
last_grouped now cf key ((family, es) ∷ gs) =
    or_else (last_grouped now cf key gs) (if family == cf then last_entry now key es else none)

get-apply_write :
    (now : ℕ) (key : Bytes) (e : Bytes × TxnWrite) (m : MemTable)
    → MemTable.get key (apply_write now e m)
      ≡ or_else (answer (write_record now e) key) (MemTable.get key m)
unfolding apply_write write_record MemTable.delete MemTable.put
get-apply_write now key (k, (v, true)) m = get-insert_record (Record.tombstone now k) key m
get-apply_write now key (k, (v, false)) m = get-insert_record (Record.new now k v) key m

recorded-apply_writes :
    (env : Env) (cf cf' : String) (key : Bytes) (es : List (Bytes × TxnWrite)) (core : EngineCore)
    → recorded (apply_writes env cf es core) cf' key
      ≡ or_else
          (if cf == cf' then last_entry env.second_now key es else none)
          (recorded core cf' key)
unfolding apply_writes
recorded-apply_writes env cf cf' key [] core = recorded-nothing (cf == cf') (recorded core cf' key)
recorded-apply_writes env cf cf' key (e ∷ es) core =
    recorded-apply_writes env cf cf' key es (with_memtable cf (apply_write env.second_now e) core)
    ∙ ap (or_else (if cf == cf' then last_entry env.second_now key es else none)) (
        recorded-update (apply_write env.second_now e) cf cf' key
          (answer (write_record env.second_now e) key) core (get-apply_write env.second_now key e))
    ∙ either_family (cf == cf') (last_entry env.second_now key es)
        (answer (write_record env.second_now e) key) (recorded core cf' key)

bytes_of-apply_writes :
    (env : Env) (cf cf' : String) (es : List (Bytes × TxnWrite)) (core : EngineCore)
    → bytes_of (apply_writes env cf es core) cf' ≡ bytes_of core cf'
unfolding apply_writes with_memtable
bytes_of-apply_writes env cf cf' [] core = refl
bytes_of-apply_writes env cf cf' (e ∷ es) core =
    bytes_of-apply_writes env cf cf' es (with_memtable cf (apply_write env.second_now e) core)

bytes_of-add_bytes :
    (cf cf' : String) (n : ℕ) (core : EngineCore)
    → bytes_of (add_bytes cf n core) cf'
      ≡ (if cf == cf' then bytes_of core cf + n else bytes_of core cf')
unfolding add_bytes
bytes_of-add_bytes cf cf' n core =
    ap (λ (o : Option ℕ). elim o [ none ↦ 0 | some m ↦ m ])
      (get-insert cf cf' (bytes_of core cf + n) core.memtable_bytes)
    ∙ split (cf == cf')
  where
    split :
        (b : Bool)
        → elim (if b then some (bytes_of core cf + n) else Dict.get cf' core.memtable_bytes) [
          | none ↦ 0
          | some m ↦ m
        ]
          ≡ (if b then bytes_of core cf + n else bytes_of core cf')
    split true = refl
    split false = refl

-- The state after the commit of a family's writes without a flush.
abbrev group_core :
    Env → String → Bytes × TxnWrite → List (Bytes × TxnWrite) → EngineCore → EngineCore
group_core env cf e es core = add_bytes cf (bytes_added (e ∷ es)) (
    apply_writes env cf (e ∷ es)
      (logged_core cf (map (λ e. in_family cf (write_record env.now e)) (e ∷ es)) core))

bytes_of-group_core :
    (env : Env) (cf cf' : String) (e : Bytes × TxnWrite) (es : List (Bytes × TxnWrite))
    (core : EngineCore)
    → bytes_of (group_core env cf e es core) cf'
      ≡ (if cf == cf' then bytes_of core cf + bytes_added (e ∷ es) else bytes_of core cf')
bytes_of-group_core env cf cf' e es core =
    bytes_of-add_bytes cf cf' (bytes_added (e ∷ es)) (apply_writes env cf (e ∷ es) start)
    ∙ ap
        (λ (n : ℕ).
          if cf == cf'
          then n + bytes_added (e ∷ es)
          else bytes_of (apply_writes env cf (e ∷ es) start) cf')
        (before cf)
    ∙ ap (λ (n : ℕ). if cf == cf' then bytes_of core cf + bytes_added (e ∷ es) else n) (before cf')
  where
    start : EngineCore
    start = logged_core cf (map (λ e. in_family cf (write_record env.now e)) (e ∷ es)) core

    before : (c : String) → bytes_of (apply_writes env cf (e ∷ es) start) c ≡ bytes_of core c
    before c =
        bytes_of-apply_writes env cf c (e ∷ es) start
        ∙ bytes_of-SameData c start core (
            logged_core-SameData cf (map (λ e. in_family cf (write_record env.now e)) (e ∷ es))
              core)

bytes_of-group_core_le :
    (env : Env) (cf cf' : String) (e : Bytes × TxnWrite) (es : List (Bytes × TxnWrite))
    (core : EngineCore)
    → bytes_of (group_core env cf e es core) cf' ≤ bytes_of core cf' + bytes_added (e ∷ es)
bytes_of-group_core_le env cf cf' e es core =
    subst (λ (n : ℕ). n ≤ bytes_of core cf' + bytes_added (e ∷ es))
      (sym (bytes_of-group_core env cf cf' e es core))
      (elim (Bool-cases (cf == cf')) [
        | inl same ↦ rw same (
            subst
              (λ (c : String).
                bytes_of core cf + bytes_added (e ∷ es) ≤ bytes_of core c + bytes_added (e ∷ es))
              ((eq_iff cf cf').0 same) (omega arith))
        | inr other ↦ rw other (omega arith)
      ])

recorded-group_core :
    (env : Env) (cf cf' : String) (key : Bytes) (e : Bytes × TxnWrite)
    (es : List (Bytes × TxnWrite)) (core : EngineCore)
    → recorded (group_core env cf e es core) cf' key
      ≡ or_else
          (if cf == cf' then last_entry env.second_now key (e ∷ es) else none)
          (recorded core cf' key)
unfolding add_bytes
recorded-group_core env cf cf' key e es core =
    let start = logged_core cf (map (λ e. in_family cf (write_record env.now e)) (e ∷ es)) core in
    recorded-apply_writes env cf cf' key (e ∷ es) start
    ∙ ap
        (λ (ms : List MemTable).
          or_else (if cf == cf' then last_entry env.second_now key (e ∷ es) else none)
            (find_record key (reverse ms)))
        (memtables_of-SameData cf' start core (
          logged_core-SameData cf (map (λ e. in_family cf (write_record env.now e)) (e ∷ es)) core))

commit_group-short :
    (opts : EngineOptions) (env : Env) (cf : String) (e : Bytes × TxnWrite)
    (es : List (Bytes × TxnWrite)) (core : EngineCore)
    → WalWorks env
    → bytes_of core cf + bytes_added (e ∷ es) < write_buffer_limit opts
    → commit_group opts env (cf, e ∷ es) core ≡ (ok false, group_core env cf e es core)
unfolding commit_group flush_if_over
commit_group-short opts env cf e es core works room =
    logged-ok env cf (in_family cf (write_record env.now e))
      (map (λ e. in_family cf (write_record env.now e)) es)
      (λ core'.
        flush_if_over opts env cf
          (add_bytes cf (bytes_added (e ∷ es)) (apply_writes env cf (e ∷ es) core')))
      core works
    ∙ ap
        (λ (b : Bool).
          if b
          then flush_memtable_for_cf opts env cf (group_core env cf e es core)
          else (ok false, group_core env cf e es core))
        below
  where
    below : leb (write_buffer_limit opts) (bytes_of (group_core env cf e es core) cf) ≡ false
    below =
        leb-below (bytes_of (group_core env cf e es core) cf) (write_buffer_limit opts)
          (omega (arith, room, bytes_of-group_core_le env cf cf e es core))

abbrev NonEmpty : Group → Type 0
NonEmpty (cf, []) = ⊥
NonEmpty (cf, e ∷ es) = Unit

abbrev total : List Group → ℕ
total [] = 0
total ((cf, es) ∷ gs) = bytes_added es + total gs

commit_groups-short :
    (opts : EngineOptions) (env : Env) (cf : String) (key : Bytes) (gs : List Group)
    (core : EngineCore)
    → WalWorks env
    → All NonEmpty gs
    → ((c : String) → bytes_of core c + total gs < write_buffer_limit opts)
    → ((commit_groups opts env gs core).0 ≡ ok tt)
      × (recorded (commit_groups opts env gs core).1 cf key
          ≡ or_else (last_grouped env.second_now cf key gs) (recorded core cf key))
unfolding commit_groups
commit_groups-short opts env cf key [] core works full room = (refl, refl)
commit_groups-short opts env cf key ((c, []) ∷ gs) core works full room = elim full.0 [ ]
commit_groups-short opts env cf key ((c, e ∷ es) ∷ gs) core works full room =
    let done = commit_group-short opts env c e es core works (omega (arith, room c)) in
    let rec =
      commit_groups-short opts env cf key gs (group_core env c e es core) works full.1
        (λ d. omega (arith, room d, bytes_of-group_core_le env c d e es core)) in
    (
      ap (λ (p : Result Bool × EngineCore). (after p).0) done ∙ rec.0,
      ap (λ (p : Result Bool × EngineCore). recorded (after p).1 cf key) done
          ∙ rec.1
          ∙ ap (or_else (last_grouped env.second_now cf key gs))
              (recorded-group_core env c cf key e es core)
          ∙ sym (
              or_else_assoc (last_grouped env.second_now cf key gs)
                (if c == cf then last_entry env.second_now key (e ∷ es) else none)
                (recorded core cf key)),
    )
  where
    after : Result Bool × EngineCore → Result (Unit {0}) × EngineCore
    after p = elim p.0 [ err e ↦ (err e, p.1) | ok compact ↦ commit_groups opts env gs p.1 ]

in_front :
    (b : Bool) (x y z : Option LogRecord)
    → or_else x (if b then or_else y z else none)
      ≡ or_else (or_else x (if b then y else none)) (if b then z else none)
in_front true x y z = sym (or_else_assoc x y z)
in_front false none y z = refl
in_front false (some r) y z = refl

-- Grouping loses no write and keeps their order.
last_grouped-into_groups :
    (now : ℕ) (cf : String) (key : Bytes) (c : String) (e : Bytes × TxnWrite) (gs : List Group)
    → last_grouped now cf key (into_groups c e gs)
      ≡ or_else
          (last_grouped now cf key gs)
          (if c == cf then answer (write_record now e) key else none)
last_grouped-into_groups now cf key c e [] = refl
last_grouped-into_groups now cf key c e ((family, es) ∷ gs) = elim (Bool-cases (family == c)) [
  | inl same ↦ rw same (
      subst
        (λ (d : String).
          or_else (last_grouped now cf key gs) (
            if family == cf
            then or_else (last_entry now key es) (answer (write_record now e) key)
            else none)
          ≡ or_else
              (or_else (last_grouped now cf key gs)
                (if family == cf then last_entry now key es else none))
              (if d == cf then answer (write_record now e) key else none))
        ((eq_iff family c).0 same)
        (in_front (family == cf) (last_grouped now cf key gs) (last_entry now key es)
          (answer (write_record now e) key)))
  | inr other ↦ rw other refl
]

last_grouped-group_writes :
    (now : ℕ) (cf : String) (key : Bytes) (ws : Dict Slot TxnWrite)
    → last_grouped now cf key (group_writes ws) ≡ last_write now cf key ws
unfolding group_writes
last_grouped-group_writes now cf key [] = refl
last_grouped-group_writes now cf key ((slot, w) ∷ ws) =
    last_grouped-into_groups now cf key slot.0 (slot.1, w) (group_writes ws)
    ∙ ap
        (λ (o : Option LogRecord).
          or_else o (if slot.0 == cf then answer (write_record now (slot.1, w)) key else none))
        (last_grouped-group_writes now cf key ws)

abbrev pub size_of_writes : Dict Slot TxnWrite → ℕ
size_of_writes [] = 0
size_of_writes ((slot, (value, deleted)) ∷ ws) = length slot.1 + length value + size_of_writes ws

into_groups-NonEmpty :
    (c : String) (e : Bytes × TxnWrite) (gs : List Group)
    → All NonEmpty gs
    → All NonEmpty (into_groups c e gs)
into_groups-NonEmpty c e [] h = (tt, tt)
into_groups-NonEmpty c e ((family, es) ∷ gs) h = elim (Bool-cases (family == c)) [
  | inl same ↦ rw same (tt, h.1)
  | inr other ↦ rw other (tt, h)
]

group_writes-NonEmpty : (ws : Dict Slot TxnWrite) → All NonEmpty (group_writes ws)
unfolding group_writes
group_writes-NonEmpty [] = tt
group_writes-NonEmpty ((slot, w) ∷ ws) =
    into_groups-NonEmpty slot.0 (slot.1, w) (group_writes ws) (group_writes-NonEmpty ws)

total-into_groups :
    (c : String) (e : Bytes × TxnWrite) (gs : List Group)
    → total (into_groups c e gs) ≡ bytes_added (e ∷ []) + total gs
total-into_groups c e [] = omega arith
total-into_groups c e ((family, es) ∷ gs) = elim (Bool-cases (family == c)) [
  | inl same ↦ rw same (omega arith)
  | inr other ↦ rw other (omega arith)
]

total-group_writes : (ws : Dict Slot TxnWrite) → total (group_writes ws) ≡ size_of_writes ws
unfolding group_writes
total-group_writes [] = refl
total-group_writes ((slot, w) ∷ ws) =
    omega (arith, total-into_groups slot.0 (slot.1, w) (group_writes ws), total-group_writes ws)

-- A commit with logs that take appends and room in every column family's memtable for all the
-- writes returns without an error and empties the buffer; every key of every column family then has
-- in the memtables the record of its last buffered write, deletions included, and where there is none the
-- record of before.
pub recorded-commit :
    (env : Env) (core : EngineCore) (t : Transaction) (cf : String) (key : Bytes)
    → WalWorks env
    → ((c : String) → bytes_of core c + size_of_writes t.writes < write_buffer_limit t.options)
    → ((commit env core t).0 ≡ ok tt)
      × ((commit env core t).2 ≡ record t { writes = [] })
      × (find_record key (reverse (memtables_of (commit env core t).1 cf))
          ≡ or_else
              (last_write env.second_now cf key t.writes)
              (find_record key (reverse (memtables_of core cf))))
unfolding commit
recorded-commit env core t cf key works room = (
  committed.0,
  refl,
  committed.1
      ∙ ap (λ (o : Option LogRecord). or_else o (recorded core cf key))
          (last_grouped-group_writes env.second_now cf key t.writes),
)
  where
    committed :
        ((commit_groups t.options env (group_writes t.writes) core).0 ≡ ok tt)
        × (recorded (commit_groups t.options env (group_writes t.writes) core).1 cf key
            ≡ or_else
                (last_grouped env.second_now cf key (group_writes t.writes))
                (recorded core cf key))
    committed =
        commit_groups-short t.options env cf key (group_writes t.writes) core works
          (group_writes-NonEmpty t.writes) (λ c. omega (arith, room c, total-group_writes t.writes))
