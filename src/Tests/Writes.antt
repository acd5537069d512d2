-- ===== src/Tests/Writes.antt =====
-- A failed put, a batch and a prefix at concrete inputs.
use apex_store.Base.Bytes.{Bytes, bytes_le, bytes_lt}
use apex_store.Engine.Flush.{starts_with}
use apex_store.Engine.Prefix.{prefix_end, starts_with-prefix_end}
use apex_store.Base.{
  ◌&&◌, some, String, ◌≡◌, refl, true, false, none, [], ◌∷◌, arith, ◌==◌, string_eq, if◌then◌else◌,
}
use mathlib.Core.List.{reverse}
use apex_store.Base.Dict
use apex_store.Error.{ok, err, io}
use apex_store.Merge.Collect.{or_else}
use apex_store.Version.{size_of_pairs}
use apex_store.Engine.{memtables_of, Env}
use apex_store.Engine.Write.{set_batch_cf, put_cf_with_ttl_inner}
use apex_store.Engine.Read.{find_record}
use apex_store.Engine.Batch.{last_item, recorded-set_batch}
use apex_store.Engine.Failed.{IsFailed, put-IsFailed}
use apex_store.Tests.Store.{some_options, some_env, some_core, works}

abbrev default_family : String
default_family = "default"

abbrev full_disk : Env
full_disk = record some_env { wal_write = err io; wal_kept = true }

put-IsFailed_example :
    IsFailed io some_core
      (put_cf_with_ttl_inner some_options full_disk "default" (1 ∷ []) (9 ∷ []) none some_core)
put-IsFailed_example =
    put-IsFailed some_options full_disk "default" (1 ∷ []) (9 ∷ []) none some_core io (omega arith)
      (omega arith) (record { opens = refl; refuses = refl })

recorded-set_batch_example :
    ((set_batch_cf some_options some_env "default"
        ((1 ∷ [], 8 ∷ []) ∷ (1 ∷ [], 9 ∷ []) ∷ [])
        some_core).0
      ≡ ok false)
    × (find_record (1 ∷ []) (
          reverse (
            memtables_of
              (set_batch_cf some_options some_env "default"
                ((1 ∷ [], 8 ∷ []) ∷ (1 ∷ [], 9 ∷ []) ∷ [])
                some_core).1
              "default"))
        ≡ or_else
            (if default_family == default_family
              then last_item some_env (1 ∷ []) ((1 ∷ [], 8 ∷ []) ∷ (1 ∷ [], 9 ∷ []) ∷ [])
              else none)
            (find_record (1 ∷ []) (reverse (memtables_of some_core "default"))))
unfolding Dict.get size_of_pairs
recorded-set_batch_example =
    recorded-set_batch some_options some_env "default" "default" (1 ∷ []) (1 ∷ []) (8 ∷ [])
      ((1 ∷ [], 9 ∷ []) ∷ []) some_core works (omega arith)

starts_with-prefix_end_example :
    (stop : Bytes) × (prefix_end (97 ∷ 98 ∷ []) ≡ some stop)
    × (starts_with (97 ∷ 98 ∷ []) (97 ∷ 98 ∷ 3 ∷ [])
        ≡ (bytes_le (97 ∷ 98 ∷ []) (97 ∷ 98 ∷ 3 ∷ []) && bytes_lt (97 ∷ 98 ∷ 3 ∷ []) stop))
starts_with-prefix_end_example =
    starts_with-prefix_end 97 (98 ∷ []) (97 ∷ 98 ∷ 3 ∷ []) (omega arith, (omega arith, tt))
