-- ===== src/Publish.antt =====
-- Publishing with retries, and the calls that go through a circuit breaker (internal/core/app.go).
pub mod Runs
pub mod Attempts
use shiro_distributed_system.Common.{
  ℕ, zero, suc, ◌-◌, ◌≤◌, arith, Bool, true, false, Option, none, some, Text, ℤ, pos, pos_part,
  List, ◌*ℤ◌, wrap64, leb_ℤ, ltb_ℤ, Result, ok, err, if◌then◌else◌,
}
use shiro_distributed_system.Config.{Config}
use shiro_distributed_system.Contracts.{
  Error, EventRecord, AppendResult, circuit_open, context_done, event_bus_not_configured,
  event_store_not_configured,
}
use shiro_distributed_system.Monad.{M}
use shiro_distributed_system.Breaker.{CircuitBreaker, allow, success, failure}
use shiro_distributed_system.Interfaces.{Runtime, EventBus, EventStore}

-- time.Duration(ms) * time.Millisecond, or a default if it is not positive.
abbrev pub millis_or : ℤ → ℤ → ℤ
millis_or default ms =
    let d = wrap64 (ms *ℤ pos 1_000_000) in if leb_ℤ d (pos 0) then default else d

abbrev pub attempts_of : Config → ℕ
attempts_of cfg = if leb_ℤ cfg.publish_retry_max (pos 0) then 1 else pos_part cfg.publish_retry_max

pub attempts_of_pos : (cfg : Config) → 1 ≤ attempts_of cfg
attempts_of_pos cfg = ground arith

-- The wait after the next failure.
unfoldable pub longer : ℤ → ℤ → ℤ
longer most wait = let d = wrap64 (wait *ℤ pos 2) in if ltb_ℤ most d then most else d

module _ (rt : Runtime) where
  open rt use {World, now}

  -- A call of a module behind its breaker: the breaker and the world after it.
  unfoldable pub guarded : {A : Type 0} → M World A → M (CircuitBreaker × World) A
  guarded call (b, w) =
      let asked = allow b (now w) in
      if asked.1
      then (let r = call w in
          elim r.0 [
            | ok a ↦ (ok a, (success asked.0, r.1))
            | err e ↦ (err e, (failure asked.0 (now r.1), r.1))
          ])
      else (err circuit_open, (asked.0, w))

  unfoldable pub bus_publish :
      Option (EventBus World) → Text → Text → Text → M (CircuitBreaker × World) Text
  unfolding guarded
  bus_publish none subject payload id s = (err event_bus_not_configured, s)
  bus_publish (some bus) subject payload id s = guarded (bus.publish subject payload id) s

  -- A call of the store; without one it is an error.
  unfoldable pub with_store :
      {A : Type 0}
      → (EventStore World → M World A)
      → Option (EventStore World)
      → M (CircuitBreaker × World) A
  unfolding guarded
  with_store call none s = (err event_store_not_configured, s)
  with_store call (some store) s = guarded (call store) s

  unfoldable pub store_append_event_exactly_once :
      Option (EventStore World) → EventRecord → M (CircuitBreaker × World) AppendResult
  unfolding with_store
  store_append_event_exactly_once store event =
      with_store (λ st. st.append_event_exactly_once event) store

  unfoldable pub store_mark_outbox_published :
      Option (EventStore World) → Text → Text → M (CircuitBreaker × World) (Unit {0})
  unfolding with_store
  store_mark_outbox_published store event_id broker_id =
      with_store (λ st. st.mark_outbox_published event_id broker_id) store

  unfoldable pub store_pending_outbox_events :
      Option (EventStore World) → ℤ → M (CircuitBreaker × World) (List EventRecord)
  unfolding with_store
  store_pending_outbox_events store limit = with_store (λ st. st.pending_outbox_events limit) store

  unfoldable pub store_claim_inbox_message :
      Option (EventStore World) → Text → Text → M (CircuitBreaker × World) Bool
  unfolding with_store
  store_claim_inbox_message store consumer message_id =
      with_store (λ st. st.claim_inbox_message consumer message_id) store

  unfoldable pub store_recent_events :
      Option (EventStore World) → Text → ℤ → M (CircuitBreaker × World) (List EventRecord)
  unfolding with_store
  store_recent_events store stream limit = with_store (λ st. st.recent_events stream limit) store

  -- The attempts: the number says how many may follow a failure of this one.
  unfoldable pub publish_from :
      Option (EventBus World) → Text → Text → Text → ℤ → ℕ → ℤ → M (CircuitBreaker × World) Text
  unfolding bus_publish
  publish_from bus subject payload id most zero wait s = bus_publish bus subject payload id s
  publish_from bus subject payload id most (suc left) wait s =
      let r = bus_publish bus subject payload id s in
      let slept = rt.wait wait r.1.1 in
      let rest =
        publish_from bus subject payload id most left (longer most wait) (r.1.0, slept.1) in
      elim r.0 [
        | ok broker_id ↦ r
        | err e ↦ if slept.0 then rest else (err context_done, (r.1.0, slept.1))
      ]

  unfoldable pub publish_with_retry :
      Config → Option (EventBus World) → Text → Text → Text → M (CircuitBreaker × World) Text
  unfolding publish_from
  publish_with_retry cfg bus subject payload id =
      publish_from bus subject payload id
        (millis_or (pos 3_000_000_000) cfg.publish_retry_max_backoff_ms) (attempts_of cfg - 1)
        (millis_or (pos 150_000_000) cfg.publish_retry_backoff_ms)
