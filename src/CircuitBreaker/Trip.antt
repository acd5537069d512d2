-- ===== src/CircuitBreaker/Trip.antt =====
-- A circuit breaker of infra/resilience/circuit_breaker.rs under failures in a row.
use apex_store.Base.{
  ℕ, ◌+◌, ◌-◌, ◌<◌, ◌≡◌, refl, sym, ap, ◌∙◌, Bool, true, false, none, some, List, [], ◌∷◌, ◌++◌,
  arith, leb, length,
}
use apex_store.CircuitBreaker.{
  closed, opened, Inner, new, count_failure, record_failure, refused, call,
}
use apex_store.CircuitBreaker.Steps.{breaker, u64_size, count_up-fits}

-- A failure at each of the times.
abbrev pub failures : List ℕ → Inner → Inner
failures [] b = b
failures (t ∷ times) b = failures times (record_failure t b)

failures-append :
    (xs : List ℕ) (t : ℕ) (b : Inner) → failures (xs ++ t ∷ []) b ≡ record_failure t (failures xs b)
failures-append [] t b = refl
failures-append (x ∷ xs) t b = failures-append xs t (record_failure x b)

module _ (ft st c : ℕ) (small : ft < u64_size) where
  counted :
      (t f : ℕ)
      → f + 1 < ft
      → record_failure t (breaker closed f 0 ft st c none) ≡ breaker closed (f + 1) 0 ft st c none
  unfolding record_failure count_failure
  counted t f h =
      rw (count_up-fits f ft (omega arith) small, record_failure)
        (rw (below f ft h, record_failure) refl)
    where
      below : (x y : ℕ) → x + 1 < y → leb y (x + 1) ≡ false
      below x y p = ground arith

  tripped :
      (t f : ℕ)
      → f + 1 ≡ ft
      → record_failure t (breaker closed f 0 ft st c none) ≡ breaker opened ft 0 ft st c (some t)
  unfolding record_failure count_failure
  tripped t f h =
      rw (count_up-fits f ft (omega arith) small ∙ h, record_failure)
        (rw (enough ft, record_failure) refl)
    where
      enough : (y : ℕ) → leb y y ≡ true
      enough y = ground arith

  failures-closed :
      (times : List ℕ) (f : ℕ)
      → f + length times < ft
      → failures times (breaker closed f 0 ft st c none)
        ≡ breaker closed (f + length times) 0 ft st c none
  failures-closed [] f h = ap (λ n. breaker closed n 0 ft st c none) (omega arith)
  failures-closed (t ∷ times) f h =
      ap (failures times) (counted t f (omega arith))
      ∙ failures-closed times (f + 1) (omega arith)
      ∙ ap (λ n. breaker closed n 0 ft st c none) (omega arith)

  -- As many failures in a row as the threshold open a new breaker, and a call before the cooldown from
  -- the last of them is over is refused and changes nothing.
  pub call-tripped :
      (times : List ℕ) (last now later : ℕ) (good : Bool)
      → length times + 1 ≡ ft
      → now - last < c
      → (failures (times ++ last ∷ []) (new ft st c) ≡ breaker opened ft 0 ft st c (some last))
        × (call now later good (failures (times ++ last ∷ []) (new ft st c))
            ≡ (refused, failures (times ++ last ∷ []) (new ft st c)))
  unfolding new
  call-tripped times last now later good enough soon =
      (trip, ap (call now later good) trip ∙ refuse ∙ ap (λ b. (refused, b)) (sym trip))
    where
      trip : failures (times ++ last ∷ []) (new ft st c) ≡ breaker opened ft 0 ft st c (some last)
      trip =
          unfold new in
          failures-append times last (breaker closed 0 0 ft st c none)
          ∙ ap (record_failure last) (failures-closed times 0 (omega arith))
          ∙ tripped last (0 + length times) (omega arith)

      early : (x y z : ℕ) → x - y < z → leb z (x - y) ≡ false
      early x y z p = ground arith

      refuse :
          call now later good (breaker opened ft 0 ft st c (some last))
          ≡ (refused, breaker opened ft 0 ft st c (some last))
      refuse = unfold call in rw (early now last c soon) refl
