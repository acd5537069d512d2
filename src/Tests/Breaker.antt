-- ===== src/Tests/Breaker.antt =====
-- The circuit breaker's theorems at concrete inputs.
use apex_store.Base.{◌≡◌, refl, true, some, [], ◌∷◌, arith, string_eq}
use apex_store.CircuitBreaker.{opened, new, record_failure, refused, call}
use apex_store.CircuitBreaker.Steps.{
  breaker, IsSound, here, then_step, fails, called, Reaches-IsSound,
}
use apex_store.CircuitBreaker.Trip.{failures, call-tripped}

call-tripped_example :
    (failures (1 ∷ 2 ∷ []) (new 2 3 30) ≡ breaker opened 2 0 2 3 30 (some 2))
    × (call 5 6 true (failures (1 ∷ 2 ∷ []) (new 2 3 30))
        ≡ (refused, failures (1 ∷ 2 ∷ []) (new 2 3 30)))
call-tripped_example =
    call-tripped 2 3 30 (omega arith) (1 ∷ []) 2 5 6 true (omega arith) (omega arith)

new_breaker : IsSound (new 2 3 30)
unfolding new
new_breaker = record {
  holds = (omega arith, refl);
  failures_fit = omega arith;
  successes_fit = omega arith;
}

Reaches-IsSound_example : IsSound (call 5 6 true (record_failure 1 (new 2 3 30))).1
Reaches-IsSound_example =
    Reaches-IsSound (new 2 3 30) (call 5 6 true (record_failure 1 (new 2 3 30))).1
      (then_step (new 2 3 30) (record_failure 1 (new 2 3 30))
        (call 5 6 true (record_failure 1 (new 2 3 30))).1
        (then_step (new 2 3 30) (new 2 3 30) (record_failure 1 (new 2 3 30)) (here (new 2 3 30))
          (fails 1 (new 2 3 30)))
        (called 5 6 true (record_failure 1 (new 2 3 30))))
      new_breaker
