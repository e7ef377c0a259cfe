-- ===== src/Publish/Runs.antt =====
-- What publishing does to the breaker of the bus (internal/core/app.go).
use shiro_distributed_system.Common.{
  ℕ, nat_eq, if◌then◌else◌, subst, zero, suc, ◌-◌, ◌+◌, ◌≡◌, ◌≤◌, some, Bool, true, ◌&&◌, List, [],
  ◌∷◌, ◌++◌, Text, ℤ, pos, arith, Result, ok, err, Result-cases, length, Bool-cases, refl, sym, ap,
  ◌∙◌, inl, inr,
}
use shiro_distributed_system.Contracts.{Error}
use shiro_distributed_system.Config.{Config}
use shiro_distributed_system.Breaker.{CircuitBreaker, allow, Call, asks, succeeds, fails, step, run}
use shiro_distributed_system.Interfaces.{Runtime, EventBus}
use shiro_distributed_system.Publish.{
  attempts_of, attempts_of_pos, millis_or, guarded, longer, bus_publish, publish_from,
  publish_with_retry,
}
use shiro_distributed_system.Publish.Attempts.{Counted}

-- An attempt: the breaker refuses it, or grants it and is told of a success, or of a failure at a
-- later time.
pub data Attempt : Type 0 where
  refused accepted : ℕ → Attempt
  failed_at : ℕ → ℕ → Attempt

abbrev pub calls_in : Attempt → List Call
calls_in (refused now) = asks now ∷ []
calls_in (accepted now) = asks now ∷ succeeds ∷ []
calls_in (failed_at now at) = asks now ∷ fails at ∷ []

abbrev pub asked_at : Attempt → ℕ
asked_at (refused now) = now
asked_at (accepted now) = now
asked_at (failed_at now at) = now

-- 1 if the attempt is granted.
abbrev pub grants : Attempt → ℕ
grants (refused now) = 0
grants _ = 1

-- 1 if the attempt succeeds.
abbrev pub successes : Attempt → ℕ
successes (accepted now) = 1
successes _ = 0

-- The breaker's own calls in the attempts.
unfoldable pub calls_of : List Attempt → List Call
calls_of [] = []
calls_of (a ∷ more) = calls_in a ++ calls_of more

-- From this breaker on, it grants exactly the attempts that are granted.
unfoldable pub are_honest : CircuitBreaker → List Attempt → Bool
are_honest b [] = true
are_honest b (a ∷ more) =
    nat_eq (grants a) (if (allow b (asked_at a)).1 then 1 else 0)
    && are_honest (run b (calls_in a)) more

-- How many attempts were granted, and how many succeeded.
unfoldable pub granted : List Attempt → ℕ
granted [] = 0
granted (a ∷ more) = grants a + granted more

unfoldable pub succeeded : List Attempt → ℕ
succeeded [] = 0
succeeded (a ∷ more) = successes a + succeeded more

calls_in-append : (a : Attempt) → calls_in a ++ [] ≡ calls_in a
calls_in-append (refused now) = refl
calls_in-append (accepted now) = refl
calls_in-append (failed_at now at) = refl

run-++ : (b : CircuitBreaker) (cs ds : List Call) → run b (cs ++ ds) ≡ run (run b cs) ds
unfolding run
run-++ b [] ds = refl
run-++ b (c ∷ cs) ds = run-++ (step b c) cs ds

abbrev pub count_ok : Result Error Text → ℕ
count_ok (ok broker_id) = 1
count_ok (err e) = 0

module _ (rt : Runtime) (bus : EventBus rt.World) (calls : rt.World → ℕ)
    (counted : Counted rt bus calls) where
  open rt use {World, now}

  -- From one breaker and world to another and a result by at most so many attempts: the breaker is
  -- what their calls make of it, and grants exactly those that are granted; the broker is called as often
  -- as one is granted; and one of them succeeds if the result is an id, and none otherwise.
  pub record Reaches (n : ℕ) (s : CircuitBreaker × World)
      (r : Result Error Text × (CircuitBreaker × World)) : Type 0 where
    pub attempts : List Attempt
    pub few : length attempts ≤ n
    pub breaker : r.1.0 ≡ run s.0 (calls_of attempts)
    pub honest : are_honest s.0 attempts ≡ true
    pub called : calls r.1.1 ≡ granted attempts + calls s.1
    pub answered : succeeded attempts ≡ count_ok r.0

  -- A single attempt.
  record IsAttempt (a : Attempt) (s : CircuitBreaker × World)
      (r : Result Error Text × (CircuitBreaker × World)) : Type 0 where
    breaker_of : r.1.0 ≡ run s.0 (calls_in a)
    honest_of : nat_eq (grants a) (if (allow s.0 (asked_at a)).1 then 1 else 0) ≡ true
    called_of : calls r.1.1 ≡ grants a + calls s.1
    answered_of : successes a ≡ count_ok r.0

  bus_publish-IsAttempt :
      (subject payload id : Text) (s : CircuitBreaker × World)
      → (a : Attempt) × IsAttempt a s (bus_publish rt (some bus) subject payload id s)
  unfolding bus_publish guarded run step
  bus_publish-IsAttempt subject payload id s =
      let r = bus.publish subject payload id s.1 in
      let count = counted.publish_counts subject payload id s.1 in
      elim (Bool-cases (allow s.0 (now s.1)).1) [
        | inr off ↦
            rw (off, bus_publish, guarded)
              (
                refused (now s.1),
                record {
                  breaker_of = refl;
                  honest_of = ground (arith, off);
                  called_of = ground arith;
                  answered_of = refl;
                },
              )
        | inl on ↦ elim (Result-cases r.0) [
          | inl (broker_id, e) ↦
              rw (on, e, bus_publish, guarded)
                (
                  accepted (now s.1),
                  record {
                    breaker_of = refl;
                    honest_of = ground (arith, on);
                    called_of = ground (arith, count);
                    answered_of = refl;
                  },
                )
          | inr (x, e) ↦
              rw (on, e, bus_publish, guarded)
                (
                  failed_at (now s.1) (now r.1),
                  record {
                    breaker_of = refl;
                    honest_of = ground (arith, on);
                    called_of = ground (arith, count);
                    answered_of = refl;
                  },
                )
        ]
      ]

  -- An attempt that ends with this result.
  Reaches-last :
      (n : ℕ) (a : Attempt) (s : CircuitBreaker × World)
      (r : Result Error Text × (CircuitBreaker × World))
      → IsAttempt a s r
      → Reaches (suc n) s r
  unfolding calls_of are_honest granted succeeded
  Reaches-last n a s r h = record {
    attempts = a ∷ [];
    few = omega arith;
    breaker = h.breaker_of ∙ ap (run s.0) (sym (calls_in-append a));
    honest = ground (arith, h.honest_of);
    called = ground (arith, h.called_of);
    answered = ground (arith, h.answered_of);
  }

  -- An attempt that fails, a wait, and more attempts.
  Reaches-more :
      (n : ℕ) (a : Attempt) (s : CircuitBreaker × World) (x : Error)
      (r r' : Result Error Text × (CircuitBreaker × World)) (w : World)
      → IsAttempt a s r
      → r.0 ≡ err x
      → calls w ≡ calls r.1.1
      → Reaches n (r.1.0, w) r'
      → Reaches (suc n) s r'
  unfolding calls_of are_honest granted succeeded
  Reaches-more n a s x r r' w h e same rest = record {
    attempts = a ∷ rest.attempts;
    few = omega (arith, rest.few);
    breaker =
        rest.breaker
        ∙ ap (λ b. run b (calls_of rest.attempts)) h.breaker_of
        ∙ sym (run-++ s.0 (calls_in a) (calls_of rest.attempts));
    honest =
        rw h.honest_of (subst (λ b. are_honest b rest.attempts ≡ true) h.breaker_of rest.honest);
    called = omega (arith, rest.called, h.called_of, same);
    answered = ground (arith, rest.answered, h.answered_of, e);
  }

  -- A failed attempt ends it when the context is done.
  Reaches-stopped :
      (n : ℕ) (a : Attempt) (s : CircuitBreaker × World) (x y : Error)
      (r : Result Error Text × (CircuitBreaker × World)) (w : World)
      → IsAttempt a s r
      → r.0 ≡ err x
      → calls w ≡ calls r.1.1
      → Reaches (suc n) s (err y, (r.1.0, w))
  Reaches-stopped n a s x y r w h e same =
      Reaches-last n a s (err y, (r.1.0, w))
        (record {
          breaker_of = h.breaker_of;
          honest_of = h.honest_of;
          called_of = same ∙ h.called_of;
          answered_of = ground (arith, h.answered_of, e);
        })

  publish_from-Reaches :
      (subject payload id : Text) (most : ℤ) (left : ℕ) (wait : ℤ) (s : CircuitBreaker × World)
      → Reaches (suc left) s (publish_from rt (some bus) subject payload id most left wait s)
  unfolding publish_from
  publish_from-Reaches subject payload id most zero wait s =
      let (a, h) = bus_publish-IsAttempt subject payload id s in Reaches-last 0 a s _ h
  publish_from-Reaches subject payload id most (suc left) wait s =
      let r = bus_publish rt (some bus) subject payload id s in
      let slept = rt.wait wait r.1.1 in
      let (a, h) = bus_publish-IsAttempt subject payload id s in
      let same = counted.wait_counts wait r.1.1 in
      elim (Result-cases r.0) [
        | inl (broker_id, e) ↦ rw (e, publish_from) (Reaches-last (suc left) a s r h)
        | inr (x, e) ↦ elim (Bool-cases slept.0) [
          | inr off ↦
              rw (e, off, publish_from) (Reaches-stopped (suc left) a s x _ r slept.1 h e same)
          | inl on ↦
              rw (e, on, publish_from)
                (Reaches-more (suc left) a s x r _ slept.1 h e same (
                  publish_from-Reaches subject payload id most left (longer most wait)
                    (r.1.0, slept.1)))
        ]
      ]

  -- Publishing, retries included, does to the breaker of the bus what a sequence of attempts does, at
  -- most as many as are configured: the breaker is what its own calls in them make of it; it grants
  -- exactly the attempts that are granted; the broker is called as often as an attempt is granted;
  -- and the breaker is told of one success if an id is returned, and of none otherwise.
  pub publish_with_retry-Reaches :
      (cfg : Config) (subject payload id : Text) (s : CircuitBreaker × World)
      → Reaches (attempts_of cfg) s (publish_with_retry rt cfg (some bus) subject payload id s)
  unfolding publish_with_retry
  publish_with_retry-Reaches cfg subject payload id s =
      let made =
        publish_from-Reaches subject payload id
          (millis_or (pos 3_000_000_000) cfg.publish_retry_max_backoff_ms) (attempts_of cfg - 1)
          (millis_or (pos 150_000_000) cfg.publish_retry_backoff_ms) s in
      record {
        attempts = made.attempts;
        few = omega (arith, made.few, attempts_of_pos cfg);
        breaker = made.breaker;
        honest = made.honest;
        called = made.called;
        answered = made.answered;
      }
