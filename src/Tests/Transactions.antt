-- ===== src/Tests/Transactions.antt =====
-- Transactions at concrete inputs.
use apex_store.Base.{
  String, ◌≡◌, true, false, none, some, [], ◌∷◌, arith, if◌then◌else◌, string_eq, pair_beq,
}
use mathlib.Core.List.{reverse}
use apex_store.Base.Bytes.{Bytes, bytes_eq}
use apex_store.Base.Dict
use apex_store.Error.{ok}
use apex_store.Merge.Collect.{or_else}
use apex_store.Engine.{memtables_of}
use apex_store.Engine.Read.{find_record}
use apex_store.Transaction.{Transaction, put_cf, delete_cf, get_cf, commit}
use apex_store.Transaction.Buffered.{get_cf-put_cf}
use apex_store.Transaction.Committed.{last_write, recorded-commit}
use apex_store.Tests.Store.{some_options, some_env, fresh_core, works}

-- A put and a delete in two column families.
abbrev two_writes : Transaction
two_writes = record {
  options = some_options;
  writes = (("a", 1 ∷ []), (5 ∷ [], false)) ∷ (("b", 2 ∷ []), ([], true)) ∷ [];
}

get_cf-put_cf_example :
    (get_cf some_env "a" (1 ∷ []) fresh_core (put_cf "a" (1 ∷ []) (9 ∷ []) two_writes) ≡ (
      if pair_beq {A = String} {B = Bytes} ("a", 1 ∷ []) ("a", 1 ∷ [])
      then (ok (some (9 ∷ [])), fresh_core)
      else get_cf some_env "a" (1 ∷ []) fresh_core two_writes))
    × (get_cf some_env "a" (1 ∷ []) fresh_core (delete_cf "a" (1 ∷ []) two_writes) ≡ (
        if pair_beq {A = String} {B = Bytes} ("a", 1 ∷ []) ("a", 1 ∷ [])
        then (ok none, fresh_core)
        else get_cf some_env "a" (1 ∷ []) fresh_core two_writes))
get_cf-put_cf_example =
    get_cf-put_cf some_env "a" "a" (1 ∷ []) (1 ∷ []) (9 ∷ []) fresh_core two_writes

recorded-commit_example :
    ((commit some_env fresh_core two_writes).0 ≡ ok tt)
    × ((commit some_env fresh_core two_writes).2 ≡ record two_writes { writes = [] })
    × (find_record (1 ∷ []) (reverse (memtables_of (commit some_env fresh_core two_writes).1 "a"))
        ≡ or_else
            (last_write some_env.second_now "a" (1 ∷ []) two_writes.writes)
            (find_record (1 ∷ []) (reverse (memtables_of fresh_core "a"))))
unfolding Dict.get
recorded-commit_example =
    recorded-commit some_env fresh_core two_writes "a" (1 ∷ []) works (λ c. omega arith)
