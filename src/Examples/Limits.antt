-- ===== src/Examples/Limits.antt =====
-- The breaker, the guard, the limiters and the backoff at small configurations.
use shiro_distributed_system.Common.{
  ℕ, ◌+◌, ◌*◌, ◌-◌, ◌/◌, ◌^◌, ◌≡◌, ◌≤◌, refl, ◌&&◌, List, [], ◌∷◌, Text, pos, pos_part, codes,
  arith, leb, ltb, length, text_key, min,
}
use shiro_distributed_system.Common.Assoc.{lookup}
use shiro_distributed_system.GoMax.{max}
use shiro_distributed_system.Limiter.{Rate}
use shiro_distributed_system.Breaker
use shiro_distributed_system.Breaker.{
  CircuitBreaker, breaker_closed, breaker_open, breaker_half_open, new_circuit_breaker, asks,
  succeeds, fails,
}
use shiro_distributed_system.Breaker.Invariant.{
  IsValid, new_circuit_breaker-IsValid, run-new_circuit_breaker-IsValid,
}
use shiro_distributed_system.Breaker.Traces.{ever_open, has_streak, ever_open-eq-has_streak}
use shiro_distributed_system.AuthGuard
use shiro_distributed_system.AuthGuard.{AuthFailureGuard, new_auth_failure_guard, is_blocked}
use shiro_distributed_system.AuthGuard.PerIp.{view, spec_run, run-view}
use shiro_distributed_system.AuthGuard.Lockout.{failing, is_blocked-failing}
use shiro_distributed_system.IpLimiter
use shiro_distributed_system.IpLimiter.{IpLimiterEntry, IpRateLimiter, new_ip_rate_limiter}
use shiro_distributed_system.IpLimiter.Bounded.{run-new-length-le}
use shiro_distributed_system.SubjectLimiter
use shiro_distributed_system.SubjectLimiter.{SubjectRateLimiter, new_subject_rate_limiter, bucket}
use shiro_distributed_system.SubjectLimiter.Buckets.{drain, bucket-run}
use shiro_distributed_system.Cass.Backoff.{backoff, millisecond}
use shiro_distributed_system.Cass.Backoff.Growth.{IsNear, backoff-IsNear}

abbrev breaker : CircuitBreaker
breaker = new_circuit_breaker (codes "nats") (pos 2) 15 (pos 2)

-- After two failures, the second at 3.
abbrev tripped : CircuitBreaker
tripped = record breaker { state = breaker_open; consecutive_failures = 2; opened_at = 3 }

abbrev probed : CircuitBreaker
probed = record tripped { state = breaker_half_open }

abbrev trial : List Breaker.Call
trial = fails 1 ∷ asks 2 ∷ fails 3 ∷ asks 20 ∷ succeeds ∷ []

run-new_circuit_breaker-IsValid_example :
    IsValid (Breaker.run (new_circuit_breaker (codes "nats") (pos 2) 15 (pos 2)) trial)
run-new_circuit_breaker-IsValid_example =
    run-new_circuit_breaker-IsValid (codes "nats") (pos 2) 15 (pos 2) trial

ever_open-eq-has_streak_example :
    ever_open breaker trial
    ≡ has_streak breaker.failure_threshold breaker.consecutive_failures trial
unfolding new_circuit_breaker
ever_open-eq-has_streak_example =
    ever_open-eq-has_streak breaker trial
      (new_circuit_breaker-IsValid (codes "nats") (pos 2) 15 (pos 2)) refl

probed-IsValid : IsValid probed
unfolding new_circuit_breaker max
probed-IsValid = ground arith

abbrev address : Text
address = codes "10.0.0.1"

abbrev guard : AuthFailureGuard
guard = new_auth_failure_guard (pos 3) 300

abbrev attacks : List (Text × AuthGuard.Call)
attacks =
    (address, AuthGuard.fails 1)
    ∷ (codes "10.0.0.2", AuthGuard.fails 2)
    ∷ (address, AuthGuard.asks 4)
    ∷ []

run-view_example :
    view (AuthGuard.run guard attacks) address
    ≡ spec_run guard.max_failures guard.block_for address (view guard address) attacks
run-view_example = run-view guard address attacks

is_blocked-failing_example :
    (is_blocked (AuthGuard.run guard (failing address (1 ∷ 2 ∷ []) 3)) address 100).1
    ≡ leb guard.max_failures 3 && leb 100 (3 + guard.block_for)
unfolding new_auth_failure_guard lookup
is_blocked-failing_example = is_blocked-failing guard address (1 ∷ 2 ∷ []) 3 100 refl

-- A bucket that counts its tokens.
abbrev counted : Rate
counted = record {
  Limiter = ℕ;
  new_limiter = λ r b. b;
  take_token = λ lim now. (lim - 1, ltb 0 lim);
}

abbrev visits : List (Text × ℕ)
visits = (address, 1) ∷ (codes "10.0.0.2", 2) ∷ (address, 3) ∷ []

run-new-length-le_example :
    length
      (IpLimiter.run counted (new_ip_rate_limiter counted 60 120 (pos 200) 900 0) visits).entries
    ≤ pos_part (max (pos 100) (pos 200))
run-new-length-le_example =
    run-new-length-le counted 60 120 (pos 200) 900 0 visits (refl, (refl, (refl, tt)))

abbrev entry : ℕ → IpLimiterEntry counted
entry seen = record { lim = 5; last_seen = seen }

-- A table for two addresses that is full.
abbrev full : IpRateLimiter counted
full = record {
  r = 60;
  b = 120;
  max_ips = 2;
  ttl = 900;
  next_sweep = 1000;
  entries = (codes "a", entry 8) ∷ (codes "b", entry 4) ∷ [];
  last_evicted_ip = [];
}

abbrev subjects : SubjectRateLimiter counted
subjects = new_subject_rate_limiter counted 100 (pos 200) ((codes "events.a", pos 5) ∷ [])

bucket-run_example :
    bucket counted
      (SubjectLimiter.run counted subjects ((codes "events.a", 1) ∷ (codes "events.b", 2) ∷ []))
      (codes "events.a")
    ≡ drain counted
        (codes "events.a")
        (bucket counted subjects (codes "events.a"))
        ((codes "events.a", 1) ∷ (codes "events.b", 2) ∷ [])
bucket-run_example =
    bucket-run counted subjects (codes "events.a")
      ((codes "events.a", 1) ∷ (codes "events.b", 2) ∷ [])

backoff-IsNear_example :
    IsNear
      (min (500_000_000 * 2 ^ (4 - 1)) 30_000_000_000)
      (min (500_000_000 * 2 ^ (4 - 1)) 30_000_000_000 / millisecond * 25 / 100)
      (backoff (λ k. k - 1) (pos 500_000_000) (pos 30_000_000_000) (pos 25) 4)
backoff-IsNear_example =
    backoff-IsNear (λ k. k - 1) 500_000_000 30_000_000_000 25 4 (λ k positive. omega arith)
      (omega arith) (omega arith) (omega arith)
