-- ===== src/Publish/Attempts.antt =====
-- How often the broker is called, and when it is reached (internal/core/app.go).
use shiro_distributed_system.Common.{
  ℕ, zero, suc, ◌+◌, ◌-◌, ◌≡◌, ◌≤◌, ◌<◌, true, some, Text, ℤ, pos, arith, Result, ok, err,
  Result-cases, Bool-cases, leb, inl, inr, ◌⊎◌,
}
use shiro_distributed_system.Config.{Config}
use shiro_distributed_system.Contracts.{Error}
use shiro_distributed_system.Breaker.{CircuitBreaker, breaker_closed, allow, failure}
use shiro_distributed_system.Interfaces.{Runtime, EventBus}
use shiro_distributed_system.Publish.{
  attempts_of, attempts_of_pos, millis_or, longer, guarded, bus_publish, publish_from,
  publish_with_retry,
}

-- A broker that counts the calls that reach it; a timer does not change the count.
pub record Counted (rt : Runtime) (bus : EventBus rt.World) (calls : rt.World → ℕ) : Type 0 where
  pub publish_counts :
      (subject payload id : Text) (w : rt.World)
      → calls (bus.publish subject payload id w).1 ≡ suc (calls w)
  pub wait_counts : (d : ℤ) (w : rt.World) → calls (rt.wait d w).1 ≡ calls w

-- Every timer fires, and the broker accepts a message once it has been called `after` times.
pub record Recovers (rt : Runtime) (bus : EventBus rt.World) (calls : rt.World → ℕ) (after : ℕ)
    : Type 0 where
  pub wait_fires : (d : ℤ) (w : rt.World) → (rt.wait d w).0 ≡ true
  pub accepts :
      (subject payload id : Text) (w : rt.World)
      → after ≤ calls w
      → (broker_id : Text) × ((bus.publish subject payload id w).0 ≡ ok broker_id)

module _ (rt : Runtime) (bus : EventBus rt.World) (calls : rt.World → ℕ)
    (counted : Counted rt bus calls) where
  open rt use {World, now}

  -- What is returned is what a call of the broker with these arguments returned, and the world is as
  -- that call left it.
  abbrev pub Delivered : Text → Text → Text → Result Error Text × (CircuitBreaker × World) → Type 0
  Delivered subject payload id r =
      (broker_id : Text) × (w : World) × (r.0 ≡ ok broker_id)
      × ((bus.publish subject payload id w).0 ≡ ok broker_id)
      × (r.1.1 ≡ (bus.publish subject payload id w).1)

  bus_publish-calls :
      (subject payload id : Text) (s : CircuitBreaker × World)
      → calls (bus_publish rt (some bus) subject payload id s).1.1 ≤ suc (calls s.1)
  unfolding bus_publish guarded
  bus_publish-calls subject payload id s =
      ground (arith, counted.publish_counts subject payload id s.1)

  publish_from-calls :
      (subject payload id : Text) (most : ℤ) (left : ℕ) (wait : ℤ) (s : CircuitBreaker × World)
      → calls (publish_from rt (some bus) subject payload id most left wait s).1.1
        ≤ suc left + calls s.1
  unfolding publish_from
  publish_from-calls subject payload id most zero wait s =
      ground (arith, bus_publish-calls subject payload id s)
  publish_from-calls subject payload id most (suc left) wait s =
      let r = bus_publish rt (some bus) subject payload id s in
      let slept = rt.wait wait r.1.1 in
      ground (
        arith,
        bus_publish-calls subject payload id s,
        counted.wait_counts wait r.1.1,
        publish_from-calls subject payload id most left (longer most wait) (r.1.0, slept.1),
      )

  -- The broker is called at most as often as configured, and once if the configured number is not
  -- positive.
  pub publish_with_retry-calls :
      (cfg : Config) (subject payload id : Text) (s : CircuitBreaker × World)
      → calls (publish_with_retry rt cfg (some bus) subject payload id s).1.1
        ≤ attempts_of cfg + calls s.1
  unfolding publish_with_retry
  publish_with_retry-calls cfg subject payload id s = ground (
    arith,
    attempts_of_pos cfg,
    publish_from-calls subject payload id
        (millis_or (pos 3_000_000_000) cfg.publish_retry_max_backoff_ms) (attempts_of cfg - 1)
        (millis_or (pos 150_000_000) cfg.publish_retry_backoff_ms) s,
  )

  module _ (after : ℕ) (recovers : Recovers rt bus calls after) where
    -- Through a closed breaker the broker is called, and a failure that is not the last one that the
    -- breaker allows leaves the breaker closed.
    bus_publish-closed :
        (subject payload id : Text) (s : CircuitBreaker × World)
        → s.0.state ≡ breaker_closed
        → suc s.0.consecutive_failures < s.0.failure_threshold
        → let r = bus_publish rt (some bus) subject payload id s in
          Delivered subject payload id r
          ⊎ ((calls s.1 < after)
              × (e : Error) × (r.0 ≡ err e)
              × (calls r.1.1 ≡ suc (calls s.1))
              × (r.1.0.state ≡ breaker_closed)
              × (r.1.0.consecutive_failures ≡ suc s.0.consecutive_failures)
              × (r.1.0.failure_threshold ≡ s.0.failure_threshold))
    unfolding bus_publish guarded allow failure
    bus_publish-closed subject payload id s closed below =
        elim (Result-cases (bus.publish subject payload id s.1).0) [
          | inl (broker_id, e) ↦ inl (broker_id, s.1, ground arith, e, ground arith)
          | inr (x, e) ↦ elim (Bool-cases (leb after (calls s.1))) [
            | inl enough ↦
                let (broker_id, e') = recovers.accepts subject payload id s.1 (ground arith) in
                absurd (ground arith)
            | inr few ↦
                let count = counted.publish_counts subject payload id s.1 in
                inr (
                  ground arith,
                  x,
                  ground arith,
                  ground arith,
                  ground arith,
                  ground arith,
                  ground arith,
                )
          ]
        ]

    bus_publish-accepted :
        (subject payload id : Text) (s : CircuitBreaker × World)
        → s.0.state ≡ breaker_closed
        → after ≤ calls s.1
        → Delivered subject payload id (bus_publish rt (some bus) subject payload id s)
    unfolding bus_publish guarded allow
    bus_publish-accepted subject payload id s closed enough =
        let (broker_id, e) = recovers.accepts subject payload id s.1 enough in
        (broker_id, s.1, ground arith, e, ground arith)

    publish_from-delivers :
        (subject payload id : Text) (most : ℤ) (left : ℕ) (wait : ℤ) (s : CircuitBreaker × World)
        → s.0.state ≡ breaker_closed
        → left + s.0.consecutive_failures < s.0.failure_threshold
        → after ≤ left + calls s.1
        → Delivered subject payload id
            (publish_from rt (some bus) subject payload id most left wait s)
    unfolding publish_from
    publish_from-delivers subject payload id most zero wait s closed below enough =
        bus_publish-accepted subject payload id s closed (omega arith)
    publish_from-delivers subject payload id most (suc left) wait s closed below enough =
        let r = bus_publish rt (some bus) subject payload id s in
        let slept = rt.wait wait r.1.1 in
        elim (bus_publish-closed subject payload id s closed (omega arith)) [
          | inl (broker_id, w, e, called, left_as) ↦
              rw (e, publish_from) (broker_id, w, e, called, left_as)
          | inr (_, x, e, count, closed', failures, threshold) ↦
              let same = counted.wait_counts wait r.1.1 in
              let later =
                publish_from-delivers subject payload id most left (longer most wait)
                  (r.1.0, slept.1) closed' (ground arith) (ground arith) in
              rw (e, recovers.wait_fires wait r.1.1, publish_from) later
        ]

    -- If every timer fires, the breaker of the bus is closed and further from its threshold than the
    -- retries that are configured, and the broker accepts a message after fewer failures than there
    -- are attempts, then publishing ends with a call of the broker with the subject, the payload and
    -- the identity: it returns the id that this call returned, and leaves the world as the call left
    -- it.
    pub publish_with_retry-delivers :
        (cfg : Config) (subject payload id : Text) (s : CircuitBreaker × World)
        → s.0.state ≡ breaker_closed
        → attempts_of cfg + s.0.consecutive_failures ≤ s.0.failure_threshold
        → after < attempts_of cfg + calls s.1
        → Delivered subject payload id (publish_with_retry rt cfg (some bus) subject payload id s)
    unfolding publish_with_retry
    publish_with_retry-delivers cfg subject payload id s closed below enough =
        let pos = attempts_of_pos cfg in
        publish_from-delivers subject payload id _ (attempts_of cfg - 1) _ s closed (omega arith)
          (omega arith)

module _ (rt : Runtime) (bus : EventBus rt.World) (grants : rt.World → ℕ) where
  open rt use {World, now}

  publish_from-keeps :
      ((subject payload id : Text) (w : World)
        → grants (bus.publish subject payload id w).1 ≡ grants w)
      → ((d : ℤ) (w : World) → grants (rt.wait d w).1 ≡ grants w)
      → (subject payload id : Text) (most : ℤ) (left : ℕ) (wait : ℤ) (s : CircuitBreaker × World)
      → grants (publish_from rt (some bus) subject payload id most left wait s).1.1 ≡ grants s.1
  unfolding publish_from bus_publish guarded
  publish_from-keeps p q subject payload id most zero wait s =
      ground (arith, p subject payload id s.1)
  publish_from-keeps p q subject payload id most (suc left) wait s =
      let r = bus_publish rt (some bus) subject payload id s in
      let slept = rt.wait wait r.1.1 in
      ground (
        arith,
        p subject payload id s.1,
        q wait r.1.1,
        publish_from-keeps p q subject payload id most left (longer most wait) (r.1.0, slept.1),
      )

  -- What neither the broker nor a timer changes, publishing does not change.
  pub publish_with_retry-keeps :
      ((subject payload id : Text) (w : World)
        → grants (bus.publish subject payload id w).1 ≡ grants w)
      → ((d : ℤ) (w : World) → grants (rt.wait d w).1 ≡ grants w)
      → (cfg : Config) (subject payload id : Text) (s : CircuitBreaker × World)
      → grants (publish_with_retry rt cfg (some bus) subject payload id s).1.1 ≡ grants s.1
  unfolding publish_with_retry
  publish_with_retry-keeps p q cfg subject payload id s =
      publish_from-keeps p q subject payload id _ (attempts_of cfg - 1) _ s
