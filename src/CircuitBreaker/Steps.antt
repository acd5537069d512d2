-- ===== src/CircuitBreaker/Steps.antt =====
-- The states that a circuit breaker of infra/resilience/circuit_breaker.rs reaches.
use apex_store.Base.{
  ℕ, ◌+◌, ◌-◌, ◌^◌, ◌<◌, max, ◌≡◌, refl, Bool, true, false, Option, none, some, arith, leb,
  if◌then◌else◌,
}
use apex_store.CircuitBreaker.{
  State, closed, opened, half_open, Inner, reset, count_up, count_success, count_failure,
  record_success, record_failure, refused, run, call,
}

abbrev pub u64_size : ℕ
u64_size = 2 ^ 64

abbrev IsSome : Option ℕ → Type 0
IsSome o = (t : ℕ) × (o ≡ some t)

-- What holds in each state: how far its counter can be, and whether the breaker has been opened.
abbrev StateHolds : State → Inner → Type 0
StateHolds closed b = (b.failure_count < max b.failure_threshold 1) × (b.opened_at ≡ none)
StateHolds opened b = IsSome b.opened_at
StateHolds half_open b = (b.success_count < max b.success_threshold 1) × IsSome b.opened_at

pub record IsSound (b : Inner) : Type 0 where
  pub holds : StateHolds b.state b
  pub failures_fit : b.failure_threshold < u64_size
  pub successes_fit : b.success_threshold < u64_size

-- One use of the breaker.
pub data Step : Inner → Inner → Type 0 where
  called : (now later : ℕ) (good : Bool) (b : Inner) → Step b (call now later good b).1
  succeeds : (b : Inner) → Step b (record_success b)
  fails : (now : ℕ) (b : Inner) → Step b (record_failure now b)
  resets : (b : Inner) → Step b (reset b)

pub data Reaches : Inner → Inner → Type 0 where
  here : (b : Inner) → Reaches b b
  then_step : (a b c : Inner) → Reaches a b → Step b c → Reaches a c

pub count_up-fits : (n m : ℕ) → n < max m 1 → m < u64_size → count_up n ≡ n + 1
unfolding count_up
count_up-fits n m h k = omega arith

reset-IsSound : (b : Inner) → IsSound b → IsSound (reset b)
unfolding reset
reset-IsSound b h = record {
  holds = (omega arith, refl);
  failures_fit = h.failures_fit;
  successes_fit = h.successes_fit;
}

if-IsSound :
    (t : Bool) (x y : Inner)
    → (t ≡ true → IsSound x)
    → (t ≡ false → IsSound y)
    → IsSound (if t then x else y)
if-IsSound true x y p q = p refl
if-IsSound false x y p q = q refl

abbrev pub breaker : State → ℕ → ℕ → ℕ → ℕ → ℕ → Option ℕ → Inner
breaker s f n ft st c o = record {
  state = s;
  failure_count = f;
  success_count = n;
  failure_threshold = ft;
  success_threshold = st;
  cooldown = c;
  opened_at = o;
}

module _ (f n ft st c : ℕ) (o : Option ℕ) where
  success-at :
      (s : State)
      → IsSound (breaker s f n ft st c o)
      → IsSound (record_success (breaker s f n ft st c o))
  unfolding record_success count_success
  success-at closed h = record {
    holds = (omega arith, h.holds.1);
    failures_fit = h.failures_fit;
    successes_fit = h.successes_fit;
  }
  success-at opened h = reset-IsSound (breaker opened f n ft st c o) h
  success-at half_open h =
      if-IsSound (leb st (count_up n)) (reset (breaker half_open f n ft st c o))
        (breaker half_open f (count_up n) ft st c o)
        (λ enough. reset-IsSound (breaker half_open f n ft st c o) h)
        (λ more. record {
          holds = (ground (arith, more), h.holds.1);
          failures_fit = h.failures_fit;
          successes_fit = h.successes_fit;
        })

  failure-at :
      (now : ℕ) (s : State)
      → IsSound (breaker s f n ft st c o)
      → IsSound (record_failure now (breaker s f n ft st c o))
  unfolding record_failure count_failure
  failure-at now closed h =
      if-IsSound (leb ft (count_up f)) (breaker opened (count_up f) n ft st c (some now))
        (breaker closed (count_up f) n ft st c o)
        (λ enough. record {
          holds = (now, refl);
          failures_fit = h.failures_fit;
          successes_fit = h.successes_fit;
        })
        (λ more. record {
          holds = (ground (arith, more), h.holds.1);
          failures_fit = h.failures_fit;
          successes_fit = h.successes_fit;
        })
  failure-at now opened h = record {
    holds = (now, refl);
    failures_fit = h.failures_fit;
    successes_fit = h.successes_fit;
  }
  failure-at now half_open h = record {
    holds = (now, refl);
    failures_fit = h.failures_fit;
    successes_fit = h.successes_fit;
  }

record_success-IsSound : (b : Inner) → IsSound b → IsSound (record_success b)
record_success-IsSound b h =
    success-at b.failure_count b.success_count b.failure_threshold b.success_threshold b.cooldown
      b.opened_at b.state h

record_failure-IsSound : (now : ℕ) (b : Inner) → IsSound b → IsSound (record_failure now b)
record_failure-IsSound now b h =
    failure-at b.failure_count b.success_count b.failure_threshold b.success_threshold b.cooldown
      b.opened_at now b.state h

run-IsSound : (later : ℕ) (good : Bool) (b : Inner) → IsSound b → IsSound (run later good b).1
unfolding run
run-IsSound later true b h = record_success-IsSound b h
run-IsSound later false b h = record_failure-IsSound later b h

module _ (now later : ℕ) (good : Bool) (f n ft st c : ℕ) where
  retried :
      (since : ℕ) (t : Bool)
      → IsSound (breaker opened f n ft st c (some since))
      → IsSound
          (if t
            then run later good (breaker half_open f 0 ft st c (some since))
            else (refused, breaker opened f n ft st c (some since))).1
  retried since true h =
      run-IsSound later good (breaker half_open f 0 ft st c (some since)) (record {
        holds = (omega arith, (since, refl));
        failures_fit = h.failures_fit;
        successes_fit = h.successes_fit;
      })
  retried since false h = h

  call-at :
      (s : State) (o : Option ℕ)
      → IsSound (breaker s f n ft st c o)
      → IsSound (call now later good (breaker s f n ft st c o)).1
  unfolding call
  call-at closed o h = run-IsSound later good (breaker closed f n ft st c o) h
  call-at half_open o h = run-IsSound later good (breaker half_open f n ft st c o) h
  call-at opened none h = h
  call-at opened (some since) h = retried since (leb c (now - since)) h

Step-IsSound : (a b : Inner) → Step a b → IsSound a → IsSound b
Step-IsSound _ _ (called now later good a) h =
    call-at now later good a.failure_count a.success_count a.failure_threshold a.success_threshold
      a.cooldown a.state a.opened_at h
Step-IsSound _ _ (succeeds a) h = record_success-IsSound a h
Step-IsSound _ _ (fails now a) h = record_failure-IsSound now a h
Step-IsSound _ _ (resets a) h = reset-IsSound a h

-- Whatever the calls, from a sound breaker, whose thresholds fit 64 bits, every reachable one is sound:
-- while it is closed its failures are below the failure threshold, or 0 where that is 0, and it has no
-- opening time; while it is half open its successes are below the success threshold, or 0 where that
-- is 0; and while it is not closed it has the time at which it was opened.
pub Reaches-IsSound : (a b : Inner) → Reaches a b → IsSound a → IsSound b
Reaches-IsSound _ _ (here b) h = h
Reaches-IsSound _ _ (then_step a b c r s) h = Step-IsSound b c s (Reaches-IsSound a b r h)
