-- ===== src/Tests/Replicas.antt =====
-- Counters of replicas at concrete inputs.
use apex_store.Base.{◌≤◌, ◌≡◌, refl, [], ◌∷◌, string_eq, arith}
use apex_store.Base.Dict
use apex_store.Crdt.{GCounter, CrdtEngine, count_in, merge, merge_counter, get_state}
use apex_store.Crdt.Laws.{Distinct, merge_counter_laws, merge_order}

abbrev left_counter : GCounter
left_counter = record { counters = ("a", 3) ∷ ("b", 1) ∷ [] }

abbrev right_counter : GCounter
right_counter = record { counters = ("b", 4) ∷ [] }

merge_counter_laws_example :
    Distinct (merge_counter left_counter right_counter).counters
    × (count_in "b" (merge_counter left_counter right_counter).counters
        ≡ count_in "b" (merge_counter right_counter left_counter).counters)
    × (count_in "b" (merge_counter left_counter (merge_counter right_counter left_counter)).counters
        ≡ count_in "b"
            (merge_counter (merge_counter left_counter right_counter) left_counter).counters)
    × (count_in "b" (merge_counter left_counter left_counter).counters
        ≡ count_in "b" left_counter.counters)
    × (count_in "b" left_counter.counters
        ≤ count_in "b" (merge_counter left_counter right_counter).counters)
unfolding Dict.get
merge_counter_laws_example =
    merge_counter_laws "b" left_counter right_counter left_counter (refl, (refl, tt)) (refl, tt)
      (refl, (refl, tt))

abbrev empty_engine : CrdtEngine
empty_engine = record { state = [] }

merge_order_example :
    get_state (1 ∷ []) (merge (1 ∷ []) (9 ∷ []) 6 (merge (1 ∷ []) (8 ∷ []) 5 empty_engine))
    ≡ get_state (1 ∷ []) (merge (1 ∷ []) (8 ∷ []) 5 (merge (1 ∷ []) (9 ∷ []) 6 empty_engine))
merge_order_example =
    merge_order (1 ∷ []) (1 ∷ []) (8 ∷ []) (9 ∷ []) (1 ∷ []) 5 6 empty_engine (omega arith)
