-- ===== src/Transaction/Buffered.antt =====
-- Reads of a transaction's own writes, core/engine/transaction.rs.
use apex_store.Base.{
  String, ◌≡◌, refl, ap, ◌∙◌, Bool, true, false, Option, none, some, [], ◌∷◌, arith, if◌then◌else◌,
  ◌==◌, string_eq, pair_eq, pair_beq_iff, pair_beq,
}
use apex_store.Base.Bytes.{Bytes, bytes_eq}
use apex_store.Base.Dict
use apex_store.Base.Dict.{Dict}
use apex_store.Error.{Result, ok}
use apex_store.Engine.{EngineCore, Env}
use apex_store.Engine.Read
use apex_store.Transaction.{
  Transaction, TxnWrite, Slot, insert_write, put_cf, delete_cf, get_cf, buffered_value,
}

get-insert_write :
    (s t : Slot) (w : TxnWrite) (m : Dict Slot TxnWrite)
    → Dict.get t (insert_write s w m) ≡ (if s == t then some w else Dict.get t m)
unfolding insert_write Dict.get
get-insert_write s t w [] = refl
get-insert_write s t w ((o, v) ∷ m) =
    ground (arith, pair_beq_iff o s, pair_beq_iff o t, pair_beq_iff s t, get-insert_write s t w m)

get_cf-written :
    (env : Env) (cf : String) (key : Bytes) (core : EngineCore) (t : Transaction) (s : Slot)
    (w : TxnWrite)
    → get_cf env cf key core (record t { writes = insert_write s w t.writes })
      ≡ (if s == (cf, key) then (ok (buffered_value w), core) else get_cf env cf key core t)
unfolding get_cf
get_cf-written env cf key core t s w =
    ap (answered_by) (get-insert_write s (cf, key) w t.writes) ∙ pick (s == (cf, key))
  where
    answered_by : Option TxnWrite → Result (Option Bytes) × EngineCore
    answered_by o = elim o [
      | some v ↦ (ok (buffered_value v), core)
      | none ↦ Read.get_cf env cf key core
    ]

    pick :
        (b : Bool)
        → answered_by (if b then some w else Dict.get (cf, key) t.writes)
          ≡ (if b then (ok (buffered_value w), core) else answered_by (Dict.get (cf, key) t.writes))
    pick true = refl
    pick false = refl

-- After a put in a transaction its key in its column family reads as the value, after a delete as
-- nothing, before any commit; every other key reads as before.
pub get_cf-put_cf :
    (env : Env) (cf cf' : String) (key key' value : Bytes) (core : EngineCore) (t : Transaction)
    → (get_cf env cf key core (put_cf cf' key' value t) ≡ (
        if pair_beq (cf', key') (cf, key)
        then (ok (some value), core)
        else get_cf env cf key core t))
      × (get_cf env cf key core (delete_cf cf' key' t)
          ≡ (if pair_beq (cf', key') (cf, key) then (ok none, core) else get_cf env cf key core t))
unfolding put_cf delete_cf
get_cf-put_cf env cf cf' key key' value core t = (
  get_cf-written env cf key core t (cf', key') (value, false),
  get_cf-written env cf key core t (cf', key') ([], true),
)
