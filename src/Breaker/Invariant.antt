-- ===== src/Breaker/Invariant.antt =====
-- What holds of a breaker between two calls (internal/core/app.go).
use shiro_distributed_system.Common.{
  ℕ, ◌≤◌, ◌≡◌, Bool, true, ◌&&◌, ltb, leb, List, [], ◌∷◌, Text, ℤ, arith,
}
use shiro_distributed_system.GoMax.{max_floor}
use shiro_distributed_system.Breaker.{
  CircuitBreaker, BreakerState, breaker_closed, breaker_open, breaker_half_open,
  new_circuit_breaker, allow, success, failure, Call, asks, succeeds, fails, step, run,
}

-- What the counters are in each state.
abbrev pub counts_ok : BreakerState → CircuitBreaker → Bool
counts_ok breaker_closed b = ltb b.consecutive_failures b.failure_threshold
counts_ok breaker_open b = leb b.failure_threshold b.consecutive_failures
counts_ok breaker_half_open b =
    leb b.failure_threshold b.consecutive_failures
    && ltb b.consecutive_success b.half_open_successes

pub record IsValid (b : CircuitBreaker) : Type 0 where
  pub threshold_pos : 1 ≤ b.failure_threshold
  pub successes_pos : 1 ≤ b.half_open_successes
  pub counts : counts_ok b.state b ≡ true

pub new_circuit_breaker-IsValid :
    (name : Text) (threshold : ℤ) (duration : ℕ) (successes : ℤ)
    → IsValid (new_circuit_breaker name threshold duration successes)
unfolding new_circuit_breaker
new_circuit_breaker-IsValid name threshold duration successes =
    ground (arith, max_floor 1 threshold, max_floor 1 successes)

pub step-IsValid : (b : CircuitBreaker) (c : Call) → IsValid b → IsValid (step b c)
unfolding step allow success failure
step-IsValid b (asks now) v = ground arith
step-IsValid b succeeds v = ground arith
step-IsValid b (fails now) v = ground arith

pub run-IsValid : (b : CircuitBreaker) (cs : List Call) → IsValid b → IsValid (run b cs)
unfolding run
run-IsValid b [] v = v
run-IsValid b (c ∷ cs) v = run-IsValid (step b c) cs (step-IsValid b c v)

-- Whatever the configuration and whatever calls follow: while the breaker is closed it has counted
-- fewer failures than its threshold, while it is open or half-open at least as many, and while it
-- is half-open fewer successes than it needs to close; both thresholds stay at least 1.
pub run-new_circuit_breaker-IsValid :
    (name : Text) (threshold : ℤ) (duration : ℕ) (successes : ℤ) (cs : List Call)
    → IsValid (run (new_circuit_breaker name threshold duration successes) cs)
run-new_circuit_breaker-IsValid name threshold duration successes cs =
    run-IsValid _ cs (new_circuit_breaker-IsValid name threshold duration successes)
