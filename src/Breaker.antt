-- ===== src/Breaker.antt =====
-- The circuit breaker of internal/core/app.go. A method returns the new breaker; the time that
-- `time.Now` gives is an argument. Times and durations are nanoseconds.
pub mod Invariant
pub mod Transitions
pub mod Traces
use shiro_distributed_system.Common.{
  ℕ, suc, ◌+◌, ◌≡◌, Bool, true, false, ◌||◌, List, [], ◌∷◌, Text, ℤ, pos, pos_part, leb,
  if◌then◌else◌,
}
use shiro_distributed_system.GoMax.{max}

pub data BreakerState : Type 0 where
  breaker_closed breaker_open breaker_half_open : BreakerState

pub record CircuitBreaker : Type 0 where
  pub name : Text
  pub failure_threshold : ℕ
  pub open_duration : ℕ
  pub half_open_successes : ℕ
  pub state : BreakerState
  pub consecutive_failures : ℕ
  pub consecutive_success : ℕ
  pub opened_at : ℕ

-- The thresholds are at least 1 after `max`, so their positive part is their value.
unfoldable pub new_circuit_breaker : Text → ℤ → ℕ → ℤ → CircuitBreaker
new_circuit_breaker name threshold duration successes = record {
  name = name;
  failure_threshold = pos_part (max (pos 1) threshold);
  open_duration = duration;
  half_open_successes = pos_part (max (pos 1) successes);
  state = breaker_closed;
  consecutive_failures = 0;
  consecutive_success = 0;
  opened_at = 0;
}

allow_in : BreakerState → CircuitBreaker → ℕ → CircuitBreaker × Bool
allow_in breaker_closed b now = (b, true)
allow_in breaker_open b now =
    if leb (b.opened_at + b.open_duration) now
    then (record b { state = breaker_half_open; consecutive_success = 0 }, true)
    else (b, false)
allow_in breaker_half_open b now = (b, true)

unfoldable pub allow : CircuitBreaker → ℕ → CircuitBreaker × Bool
unfolding allow_in
allow b now = allow_in b.state b now

success_in : BreakerState → CircuitBreaker → CircuitBreaker
success_in breaker_half_open b =
    let more = suc b.consecutive_success in
    if leb b.half_open_successes more
    then record b { state = breaker_closed; consecutive_failures = 0; consecutive_success = 0 }
    else record b { consecutive_success = more }
success_in breaker_closed b = record b { consecutive_failures = 0 }
success_in breaker_open b = b

unfoldable pub success : CircuitBreaker → CircuitBreaker
unfolding success_in
success b = success_in b.state b

abbrev pub is_half_open : BreakerState → Bool
is_half_open breaker_half_open = true
is_half_open _ = false

unfoldable pub failure : CircuitBreaker → ℕ → CircuitBreaker
failure b now =
    let more = suc b.consecutive_failures in
    let counted : CircuitBreaker = record b {
      consecutive_failures = more;
      consecutive_success = 0;
    } in
    if leb b.failure_threshold more || is_half_open b.state
    then record counted { state = breaker_open; opened_at = now }
    else counted

-- What the callers do to a breaker, in the order of its mutex.
pub data Call : Type 0 where
  asks : ℕ → Call
  succeeds : Call
  fails : ℕ → Call

unfoldable pub step : CircuitBreaker → Call → CircuitBreaker
step b (asks now) = (allow b now).0
step b succeeds = success b
step b (fails now) = failure b now

unfoldable pub run : CircuitBreaker → List Call → CircuitBreaker
run b [] = b
run b (c ∷ cs) = run (step b c) cs
