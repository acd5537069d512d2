-- ===== src/Engine/Batch.antt =====
-- `set_batch_cf` of core/engine/mod.rs.
use apex_store.Base.{
  ◌+◌, ◌<◌, String, ◌≡◌, refl, sym, ap, ◌∙◌, subst, Bool, true, false, Option, none, List, [], ◌∷◌,
  map, arith, length, if◌then◌else◌, ◌==◌, string_eq,
}
use mathlib.Core.List.{reverse}
use apex_store.Base.Bytes.{Bytes}
use apex_store.Error.{Result, ok}
use apex_store.Merge.Collect.{or_else}
use apex_store.Record
use apex_store.Record.{LogRecord}
use apex_store.MemTable
use apex_store.MemTable.{MemTable}
use apex_store.Version.{size_of_pairs}
use apex_store.Engine.{EngineOptions, EngineCore, Env, write_buffer_limit, memtables_of, bytes_of}
use apex_store.Engine.Write.{in_family, flush_if_full, apply_sets, set_batch_cf}
use apex_store.Engine.Read.{find_record}
use apex_store.Engine.Lookup.{or_else_assoc}
use apex_store.Engine.Point.{insert_point, answer}
use apex_store.Engine.Logged.{WalWorks, SameData, logged_core, logged_core-SameData, logged-ok}
use apex_store.Engine.Same.{
  bytes_of-SameData, bytes_of-insert_point, memtables_of-SameData, flush_if_full-short,
}
use apex_store.Engine.Recover.{recorded, recorded-insert_point}

-- What a batch stores under a key: its last pair with the key.
abbrev pub last_item : Env → Bytes → List (Bytes × Bytes) → Option LogRecord
last_item env key [] = none
last_item env key ((k, v) ∷ items) =
    or_else (last_item env key items) (answer (Record.new env.second_now k v) key)

apply_sets-step :
    (env : Env) (cf : String) (k v : Bytes) (items : List (Bytes × Bytes)) (core : EngineCore)
    → apply_sets env cf ((k, v) ∷ items) core
      ≡ apply_sets env cf items
          (insert_point cf (Record.new env.second_now k v) (length k + length v) core)
unfolding apply_sets insert_point MemTable.put
apply_sets-step env cf k v items core = refl

pub either_family :
    (b : Bool) (x y : Option LogRecord) (z : Option LogRecord)
    → or_else (if b then x else none) (or_else (if b then y else none) z)
      ≡ or_else (if b then or_else x y else none) z
either_family true x y z = sym (or_else_assoc x y z)
either_family false x y z = refl

pub recorded-nothing : (b : Bool) (z : Option LogRecord) → z ≡ or_else (if b then none else none) z
recorded-nothing true z = refl
recorded-nothing false z = refl

recorded-apply_sets :
    (env : Env) (cf cf' : String) (key : Bytes) (items : List (Bytes × Bytes)) (core : EngineCore)
    → recorded (apply_sets env cf items core) cf' key
      ≡ or_else (if cf == cf' then last_item env key items else none) (recorded core cf' key)
recorded-apply_sets env cf cf' key [] core =
    unfold apply_sets in recorded-nothing (cf == cf') (recorded core cf' key)
recorded-apply_sets env cf cf' key ((k, v) ∷ items) core =
    let r = Record.new env.second_now k v in
    ap (λ (c : EngineCore). recorded c cf' key) (apply_sets-step env cf k v items core)
    ∙ recorded-apply_sets env cf cf' key items (insert_point cf r (length k + length v) core)
    ∙ ap (or_else (if cf == cf' then last_item env key items else none))
        (recorded-insert_point cf cf' key r (length k + length v) core)
    ∙ either_family (cf == cf') (last_item env key items) (answer r key) (recorded core cf' key)

bytes_of-apply_sets :
    (env : Env) (cf : String) (items : List (Bytes × Bytes)) (core : EngineCore)
    → bytes_of (apply_sets env cf items core) cf ≡ bytes_of core cf + size_of_pairs items
unfolding size_of_pairs
bytes_of-apply_sets env cf [] core = unfold apply_sets in omega arith
bytes_of-apply_sets env cf ((k, v) ∷ items) core =
    let r = Record.new env.second_now k v in
    let n = length k + length v in
    ap (λ (c : EngineCore). bytes_of c cf) (apply_sets-step env cf k v items core)
    ∙ bytes_of-apply_sets env cf items (insert_point cf r n core)
    ∙ ap (λ b. b + size_of_pairs items) (bytes_of-insert_point cf r n core)
    ∙ omega arith

-- A batch of puts with a log that takes appends and room in the memtable returns without a flush,
-- and stores under each key of the column family the batch's last pair with the key; every other
-- record of the memtables is as before.
pub recorded-set_batch :
    (opts : EngineOptions) (env : Env) (cf cf' : String) (key k v : Bytes)
    (items : List (Bytes × Bytes)) (core : EngineCore)
    → WalWorks env
    → bytes_of core cf + size_of_pairs ((k, v) ∷ items) < write_buffer_limit opts
    → ((set_batch_cf opts env cf ((k, v) ∷ items) core).0 ≡ ok false)
      × (find_record key
            (reverse (memtables_of (set_batch_cf opts env cf ((k, v) ∷ items) core).1 cf'))
          ≡ or_else
              (if cf == cf' then last_item env key ((k, v) ∷ items) else none)
              (find_record key (reverse (memtables_of core cf'))))
recorded-set_batch opts env cf cf' key k v items core works room = (
  ap (λ (out : Result Bool × EngineCore). out.0) ran,
  ap (λ (out : Result Bool × EngineCore). recorded out.1 cf' key) ran
      ∙ recorded-apply_sets env cf cf' key ((k, v) ∷ items) start
      ∙ ap
          (λ (ms : List MemTable).
            or_else (if cf == cf' then last_item env key ((k, v) ∷ items) else none)
              (find_record key (reverse ms)))
          (memtables_of-SameData cf' start core same),
)
  where
    records : List LogRecord
    records = map (λ p. in_family cf (Record.new env.now p.0 p.1)) items

    start : EngineCore
    start = logged_core cf (in_family cf (Record.new env.now k v) ∷ records) core

    same : SameData start core
    same = logged_core-SameData cf (in_family cf (Record.new env.now k v) ∷ records) core

    short : bytes_of (apply_sets env cf ((k, v) ∷ items) start) cf < write_buffer_limit opts
    short =
        subst (λ x. x < write_buffer_limit opts)
          (sym (
            bytes_of-apply_sets env cf ((k, v) ∷ items) start
            ∙ ap (λ b. b + size_of_pairs ((k, v) ∷ items)) (bytes_of-SameData cf start core same)))
          room

    ran :
        set_batch_cf opts env cf ((k, v) ∷ items) core
        ≡ (ok false, apply_sets env cf ((k, v) ∷ items) start)
    ran =
        unfold set_batch_cf in
        logged-ok env cf (in_family cf (Record.new env.now k v)) records
          (λ core'. flush_if_full opts env cf (apply_sets env cf ((k, v) ∷ items) core')) core works
        ∙ flush_if_full-short opts env cf (apply_sets env cf ((k, v) ∷ items) start) short
