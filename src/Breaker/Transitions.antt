-- ===== src/Breaker/Transitions.antt =====
-- The state diagram of the breaker (internal/core/app.go), with the condition of each edge.
use shiro_distributed_system.Common.{
  if◌then◌else◌, ℕ, suc, ◌+◌, ◌≤◌, ◌<◌, ◌≡◌, refl, false, arith, ◌↔◌,
}
use shiro_distributed_system.Breaker.{
  BreakerState, CircuitBreaker, breaker_closed, breaker_open, breaker_half_open, allow, success,
  failure, Call, asks, succeeds, fails, step,
}

-- The diagram: what a call may do to the state of a breaker, and when.
pub data Edge (b : CircuitBreaker) : Call → BreakerState → Type 0 where
  stay : {c : Call} {s : BreakerState} → s ≡ b.state → Edge b c s
  trip :
      {t : ℕ}
      → b.state ≡ breaker_closed
      → b.failure_threshold ≤ suc b.consecutive_failures
      → Edge b (fails t) breaker_open
  probe :
      {t : ℕ}
      → b.state ≡ breaker_open
      → b.opened_at + b.open_duration ≤ t
      → Edge b (asks t) breaker_half_open
  recover :
      b.state ≡ breaker_half_open
      → b.half_open_successes ≤ suc b.consecutive_success
      → Edge b succeeds breaker_closed
  relapse : {t : ℕ} → b.state ≡ breaker_half_open → Edge b (fails t) breaker_open

failure-Edge :
    (b : CircuitBreaker) (t : ℕ) (s : BreakerState)
    → b.state ≡ s
    → Edge b (fails t) (failure b t).state
unfolding failure
failure-Edge b t breaker_closed e = grind (arith, stay, trip)
failure-Edge b t breaker_open e = stay (ground arith)
failure-Edge b t breaker_half_open e = grind (arith, relapse)

-- Every call follows an edge of the diagram: a closed breaker opens only on the failure that reaches
-- the threshold, an open one is probed only once its duration has passed, a half-open one closes
-- only on the last success that it needs and opens on any failure, and nothing else moves it.
step-Edge : (b : CircuitBreaker) (c : Call) → Edge b c (step b c).state
unfolding step allow success
step-Edge b (asks t) = grind (arith, stay, probe)
step-Edge b succeeds = grind (arith, stay, recover)
step-Edge b (fails t) = failure-Edge b t b.state refl

-- An open breaker refuses a request exactly before its duration has passed since it opened; a
-- breaker in another state admits every request, and a refused request changes nothing.
allow-refuses_iff :
    (b : CircuitBreaker) (now : ℕ)
    → (((allow b now).1 ≡ false)
        ↔ ((b.state ≡ breaker_open) × (now < b.opened_at + b.open_duration)))
      × ((if (allow b now).1 then b else (allow b now).0) ≡ b)
unfolding allow
allow-refuses_iff b now = ground arith
