-- ===== src/CircuitBreaker.antt =====
-- infra/resilience/circuit_breaker.rs: a state machine behind a lock. The clock's readings are
-- arguments; a call's closure is its outcome. Counters are `u64`.
pub mod Steps
pub mod Trip
use apex_store.Base.{
  ℕ, ◌+◌, ◌-◌, ◌%◌, ◌^◌, Bool, true, false, Option, none, some, leb, if◌then◌else◌,
}

pub data State : Type 0 where
  closed opened half_open : State

pub record Inner : Type 0 where
  pub state : State
  pub failure_count : ℕ
  pub success_count : ℕ
  pub failure_threshold : ℕ
  pub success_threshold : ℕ
  pub cooldown : ℕ
  pub opened_at : Option ℕ

unfoldable pub new : ℕ → ℕ → ℕ → Inner
new failure_threshold success_threshold cooldown = record {
  state = closed;
  failure_count = 0;
  success_count = 0;
  failure_threshold = failure_threshold;
  success_threshold = success_threshold;
  cooldown = cooldown;
  opened_at = none;
}

unfoldable pub reset : Inner → Inner
reset b = record b { state = closed; failure_count = 0; success_count = 0; opened_at = none }

-- `count += 1`
unfoldable pub count_up : ℕ → ℕ
count_up n = (n + 1) % 2 ^ 64

unfoldable pub count_success : ℕ → Inner → Inner
unfolding reset
count_success n b = if leb b.success_threshold n then reset b else record b { success_count = n }

unfoldable pub count_failure : ℕ → ℕ → Inner → Inner
count_failure now n b =
    if leb b.failure_threshold n
    then record b { state = opened; failure_count = n; opened_at = some now }
    else record b { failure_count = n }

unfoldable pub record_success : Inner → Inner
unfolding count_success count_up reset
record_success b = elim b.state [
  | closed ↦ record b { failure_count = 0 }
  | half_open ↦ count_success (count_up b.success_count) b
  | opened ↦ reset b
]

unfoldable pub record_failure : ℕ → Inner → Inner
unfolding count_failure count_up
record_failure now b = elim b.state [
  | closed ↦ count_failure now (count_up b.failure_count) b
  | half_open ↦ record b { state = opened; opened_at = some now; success_count = 0 }
  | opened ↦ record b { opened_at = some now }
]

-- What a call came to: refused, or run with a good or a bad end.
pub data Outcome : Type 0 where
  refused succeeded failed : Outcome

unfoldable pub run : ℕ → Bool → Inner → Outcome × Inner
unfolding record_success record_failure
run later true b = (succeeded, record_success b)
run later false b = (failed, record_failure later b)

-- `call` at `now`, of a closure that succeeds or not and ends at `later`.
unfoldable pub call : ℕ → ℕ → Bool → Inner → Outcome × Inner
unfolding run
call now later good b = elim b.state [
  | opened ↦ elim b.opened_at [
    | none ↦ (refused, b)
    | some since ↦
        if leb b.cooldown (now - since)
        then run later good (record b { state = half_open; success_count = 0 })
        else (refused, b)
  ]
  | half_open ↦ run later good b
  | closed ↦ run later good b
]
