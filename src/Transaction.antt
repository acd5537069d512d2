-- ===== src/Transaction.antt =====
-- core/engine/transaction.rs: buffered writes, and their commit to the engine's state.
pub mod Buffered
pub mod Committed
use apex_store.Base.{
  ℕ, ◌+◌, String, Bool, true, false, ◌&&◌, ◌||◌, Option, none, some, List, [], ◌∷◌, map, length,
  leb, if◌then◌else◌, ◌==◌, string_eq, pair_eq, Ordering,
}
use Prim.Native.String.{compare}
use apex_store.Base.Bytes.{Bytes, bytes_lt, bytes_eq}
use apex_store.Base.Dict
use apex_store.Base.Dict.{Dict}
use apex_store.Base.Sorted.{sort_by_key}
use apex_store.Error.{Result, ok, err}
use apex_store.Record
use apex_store.Record.{LogRecord}
use apex_store.MemTable
use apex_store.MemTable.{MemTable}
use apex_store.Version.{Table, add_table, build}
use apex_store.Engine.{
  EngineOptions, EngineCore, Env, write_buffer_limit, memtables_of, bytes_of, with_memtable,
  add_bytes,
}
use apex_store.Engine.Flush.{pop_last, finish_flush}
use apex_store.Engine.Write.{in_family, logged}
use apex_store.Engine.Read

-- A value, and whether it is a deletion.
abbrev pub TxnWrite : Type 0
TxnWrite = Bytes × Bool

abbrev pub Slot : Type 0
Slot = String × Bytes

-- The writes in the order of their column families and keys, as in the `BTreeMap`.
pub record Transaction : Type 0 where
  pub options : EngineOptions
  pub writes : Dict Slot TxnWrite

unfoldable pub new : EngineOptions → Transaction
new options = record { options = options; writes = [] }

unfoldable pub slot_lt : Slot → Slot → Bool
slot_lt a b = elim (compare a.0 b.0) [
  | Ordering.lt ↦ true
  | Ordering.eq ↦ bytes_lt a.1 b.1
  | Ordering.gt ↦ false
]

unfoldable pub insert_write : Slot → TxnWrite → Dict Slot TxnWrite → Dict Slot TxnWrite
unfolding slot_lt
insert_write slot w [] = (slot, w) ∷ []
insert_write slot w ((other, old) ∷ rest) =
    let after = insert_write slot w rest in
    if other == slot
    then (slot, w) ∷ rest
    else if slot_lt other slot
    then (other, old) ∷ after
    else (slot, w) ∷ (other, old) ∷ rest

unfoldable pub put_cf : String → Bytes → Bytes → Transaction → Transaction
unfolding insert_write
put_cf cf key value t = record t { writes = insert_write (cf, key) (value, false) t.writes }

unfoldable pub put : Bytes → Bytes → Transaction → Transaction
unfolding put_cf
put key value t = put_cf "default" key value t

unfoldable pub delete_cf : String → Bytes → Transaction → Transaction
unfolding insert_write
delete_cf cf key t = record t { writes = insert_write (cf, key) ([], true) t.writes }

unfoldable pub delete : Bytes → Transaction → Transaction
unfolding delete_cf
delete key t = delete_cf "default" key t

abbrev pub buffered_value : TxnWrite → Option Bytes
buffered_value (value, true) = none
buffered_value (value, false) = some value

-- The write buffer first, then the steps of the engine's own point read.
unfoldable pub get_cf :
    Env → String → Bytes → EngineCore → Transaction → Result (Option Bytes) × EngineCore
unfolding Read.get_cf
get_cf env cf key core t = elim (Dict.get (cf, key) t.writes) [
  | some w ↦ (ok (buffered_value w), core)
  | none ↦ Read.get_cf env cf key core
]

unfoldable pub get : Env → Bytes → EngineCore → Transaction → Result (Option Bytes) × EngineCore
unfolding get_cf
get env key core t = get_cf env "default" key core t

-- The writes of a column family stand together, so that a family's group is a run of them.
abbrev pub Group : Type 0
Group = String × List (Bytes × TxnWrite)

abbrev pub into_groups : String → Bytes × TxnWrite → List Group → List Group
into_groups cf e [] = (cf, e ∷ []) ∷ []
into_groups cf e ((family, es) ∷ groups) =
    if family == cf then (family, e ∷ es) ∷ groups else (cf, e ∷ []) ∷ (family, es) ∷ groups

unfoldable pub group_writes : Dict Slot TxnWrite → List Group
group_writes [] = []
group_writes ((slot, w) ∷ ws) = into_groups slot.0 (slot.1, w) (group_writes ws)

-- A write's record, at a time.
unfoldable pub write_record : ℕ → Bytes × TxnWrite → LogRecord
unfolding Record.tombstone Record.new
write_record now (key, (value, true)) = Record.tombstone now key
write_record now (key, (value, false)) = Record.new now key value

unfoldable pub apply_write : ℕ → Bytes × TxnWrite → MemTable → MemTable
unfolding MemTable.delete MemTable.put
apply_write now (key, (value, true)) m = MemTable.delete now key m
apply_write now (key, (value, false)) m = MemTable.put now key value m

unfoldable pub apply_writes : Env → String → List (Bytes × TxnWrite) → EngineCore → EngineCore
unfolding with_memtable apply_write
apply_writes env cf [] core = core
apply_writes env cf (e ∷ es) core =
    apply_writes env cf es (with_memtable cf (apply_write env.second_now e) core)

abbrev pub bytes_added : List (Bytes × TxnWrite) → ℕ
bytes_added [] = 0
bytes_added ((key, (value, deleted)) ∷ es) = length key + length value + bytes_added es

-- The memtable becomes a table in memory, and the log is cleared.
unfoldable pub flush_memtable_for_cf :
    EngineOptions → Env → String → EngineCore → Result Bool × EngineCore
unfolding pop_last add_table build finish_flush
flush_memtable_for_cf opts env cf core = elim (pop_last (memtables_of core cf)) [
  | none ↦ (ok false, core)
  | some (before, mem) ↦
      let popped = record core { memtables = Dict.insert cf before core.memtables } in
      let table =
        build env.new_bloom
          (sort_by_key (map (λ (p : Bytes × LogRecord). (p.0, p.1.value)) mem.data_map)) in
      finish_flush opts env cf
        (record popped { version_set = add_table cf table popped.version_set })
]

unfoldable pub flush_if_over : EngineOptions → Env → String → EngineCore → Result Bool × EngineCore
unfolding flush_memtable_for_cf
flush_if_over opts env cf core =
    if leb (write_buffer_limit opts) (bytes_of core cf)
    then flush_memtable_for_cf opts env cf core
    else (ok false, core)

-- The phases of a column family's commit.
unfoldable pub commit_group : EngineOptions → Env → Group → EngineCore → Result Bool × EngineCore
unfolding logged write_record apply_writes add_bytes flush_if_over
commit_group opts env (cf, es) core =
    logged env cf (map (λ e. in_family cf (write_record env.now e)) es)
      (λ core'.
        flush_if_over opts env cf (add_bytes cf (bytes_added es) (apply_writes env cf es core')))
      core

-- The loop over the column families; an error leaves the families before it committed.
unfoldable pub commit_groups :
    EngineOptions → Env → List Group → EngineCore → Result (Unit {0}) × EngineCore
unfolding commit_group
commit_groups opts env [] core = (ok tt, core)
commit_groups opts env (g ∷ gs) core =
    let (done, core') = commit_group opts env g core in
    elim done [ err e ↦ (err e, core') | ok compact ↦ commit_groups opts env gs core' ]

-- The buffer is empty afterwards, whatever the outcome.
unfoldable pub commit :
    Env → EngineCore → Transaction → Result (Unit {0}) × EngineCore × Transaction
unfolding commit_groups group_writes
commit env core t =
    let (done, core') = commit_groups t.options env (group_writes t.writes) core in
    (done, core', record t { writes = [] })

unfoldable pub rollback : Transaction → Transaction
rollback t = record t { writes = [] }
