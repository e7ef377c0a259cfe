-- ===== src/Breaker/Traces.antt =====
-- What a sequence of outcomes does to a breaker (internal/core/app.go).
use shiro_distributed_system.Common.{
  ℕ, zero, suc, ◌+◌, ◌<◌, ◌≡◌, Bool, true, false, ◌||◌, List, [], ◌∷◌, arith, leb, replicate, sym,
  subst, Bool-cases, inl, inr,
}
use shiro_distributed_system.Breaker.Invariant.{IsValid}
use shiro_distributed_system.Breaker.{
  BreakerState, CircuitBreaker, breaker_closed, breaker_open, breaker_half_open, allow, success,
  failure, Call, asks, succeeds, fails, step, run,
}

-- Some stretch of failures, with no success between, reaches the threshold, when `streak` failures
-- came before. Requests that ask for admission do not count.
pub has_streak : ℕ → ℕ → List Call → Bool
has_streak threshold streak [] = false
has_streak threshold streak (asks _ ∷ cs) = has_streak threshold streak cs
has_streak threshold streak (succeeds ∷ cs) = has_streak threshold 0 cs
has_streak threshold streak (fails _ ∷ cs) =
    leb threshold (suc streak) || has_streak threshold (suc streak) cs

abbrev pub not_closed : BreakerState → Bool
not_closed breaker_closed = false
not_closed _ = true

-- The breaker leaves the closed state at some point of the sequence.
pub ever_open : CircuitBreaker → List Call → Bool
ever_open b [] = not_closed b.state
ever_open b (c ∷ cs) = not_closed b.state || ever_open (step b c) cs

ever_open_of_open :
    (b : CircuitBreaker) (cs : List Call) → b.state ≡ breaker_open → ever_open b cs ≡ true
unfolding ever_open
ever_open_of_open b [] h = ground arith
ever_open_of_open b (c ∷ cs) h = ground arith

asks_closed : (b : CircuitBreaker) (t : ℕ) → b.state ≡ breaker_closed → step b (asks t) ≡ b
unfolding step allow
asks_closed b t h = ground arith

succeeds_closed :
    (b : CircuitBreaker)
    → b.state ≡ breaker_closed
    → step b succeeds ≡ record b { consecutive_failures = 0 }
unfolding step success
succeeds_closed b h = ground arith

-- One more failure reaches the threshold.
abbrev reaches : CircuitBreaker → Bool
reaches b = leb b.failure_threshold (suc b.consecutive_failures)

abbrev counted : CircuitBreaker → CircuitBreaker
counted b = record b { consecutive_failures = suc b.consecutive_failures; consecutive_success = 0 }

fails_trips :
    (b : CircuitBreaker) (t : ℕ)
    → b.state ≡ breaker_closed
    → reaches b ≡ true
    → (step b (fails t)).state ≡ breaker_open
unfolding step failure
fails_trips b t h r = ground arith

fails_counts :
    (b : CircuitBreaker) (t : ℕ)
    → b.state ≡ breaker_closed
    → reaches b ≡ false
    → step b (fails t) ≡ counted b
unfolding step failure
fails_counts b t h r = ground arith

counted-IsValid :
    (b : CircuitBreaker)
    → IsValid b
    → b.state ≡ breaker_closed
    → reaches b ≡ false
    → IsValid (counted b)
counted-IsValid b v h r = ground arith

-- A closed breaker opens in the course of a sequence exactly when the sequence, with the failures
-- counted before, has as many failures in a row as the threshold says.
pub ever_open-eq-has_streak :
    (b : CircuitBreaker) (cs : List Call)
    → IsValid b
    → b.state ≡ breaker_closed
    → ever_open b cs ≡ has_streak b.failure_threshold b.consecutive_failures cs
unfolding ever_open has_streak
ever_open-eq-has_streak b [] v h = ground arith
ever_open-eq-has_streak b (asks t ∷ cs) v h =
    ground (arith, asks_closed b t h, ever_open-eq-has_streak b cs v h)
ever_open-eq-has_streak b (succeeds ∷ cs) v h = ground (
  arith,
  succeeds_closed b h,
  ever_open-eq-has_streak (record b { consecutive_failures = 0 }) cs (ground arith) h,
)
ever_open-eq-has_streak b (fails t ∷ cs) v h = elim (Bool-cases (reaches b)) [
  | inl trips ↦ ground (arith, ever_open_of_open (step b (fails t)) cs (fails_trips b t h trips))
  | inr holds ↦ ground (
    arith,
    fails_counts b t h holds,
    ever_open-eq-has_streak (counted b) cs (counted-IsValid b v h holds) h,
  )
]

success_counts :
    (b : CircuitBreaker)
    → b.state ≡ breaker_half_open
    → suc b.consecutive_success < b.half_open_successes
    → step b succeeds ≡ record b { consecutive_success = suc b.consecutive_success }
unfolding step success
success_counts b h lt = ground arith

success_closes :
    (b : CircuitBreaker)
    → b.state ≡ breaker_half_open
    → suc b.consecutive_success ≡ b.half_open_successes
    → ((step b succeeds).state ≡ breaker_closed) × ((step b succeeds).consecutive_failures ≡ 0)
unfolding step success
success_closes b h e = ground arith

-- After `k` successes the breaker is half-open still, and after one more it is closed.
abbrev pub IsRecovery : CircuitBreaker → ℕ → Type 0
IsRecovery b k =
    ((run b (replicate k succeeds)).state ≡ breaker_half_open)
    × ((run b (replicate (suc k) succeeds)).state ≡ breaker_closed)
    × ((run b (replicate (suc k) succeeds)).consecutive_failures ≡ 0)

-- A half-open breaker closes, with its failures forgotten, once it has seen the successes that it
-- still needs, and not before.
run_successes :
    (k : ℕ) (b : CircuitBreaker)
    → IsValid b
    → b.state ≡ breaker_half_open
    → b.consecutive_success + suc k ≡ b.half_open_successes
    → IsRecovery b k
unfolding run
run_successes zero b v h e =
    let closes = success_closes b h (omega arith) in (h, closes.0, closes.1)
run_successes (suc k) b v h e =
    let next = record b { consecutive_success = suc b.consecutive_success } in
    subst (λ c. IsRecovery c k) (sym (success_counts b h (omega arith)))
      (run_successes k next (ground arith) h (omega arith))
