-- ===== src/Relay.antt =====
-- The relay of the outbox and the publish of one event (internal/core/app.go). The state is the
-- breaker of the bus, the breaker of the store and the world.
pub mod Backed
use shiro_distributed_system.Common.{
  ℕ, zero, suc, Bool, true, false, Option, none, some, Text, ℤ, pos, pos_part, List, [], ◌∷◌, ◌*ℤ◌,
  wrap64, Result, ok, err, if◌then◌else◌,
}
use shiro_distributed_system.GoMax.{max}
use shiro_distributed_system.Config.{Config}
use shiro_distributed_system.Contracts.{Error, EventRecord}
use shiro_distributed_system.Monad.{M}
use shiro_distributed_system.Breaker.{CircuitBreaker}
use shiro_distributed_system.Interfaces.{Runtime, EventBus, EventStore, AdvancedEventStore}
use shiro_distributed_system.Publish.{
  publish_with_retry, store_mark_outbox_published, store_pending_outbox_events,
}

-- time.Duration(max(floor, ms)) * time.Millisecond
abbrev pub millis : ℤ → ℤ → ℤ
millis floor ms = wrap64 (max floor ms *ℤ pos 1_000_000)

module _ (rt : Runtime) where
  open rt use {World}

  abbrev pub State : Type 0
  State = CircuitBreaker × (CircuitBreaker × World)

  abbrev pub on_bus : {A : Type 0} → M (CircuitBreaker × World) A → M State A
  on_bus m (b, (s, w)) = let r = m (b, w) in (r.0, (r.1.0, (s, r.1.1)))

  abbrev pub on_store : {A : Type 0} → M (CircuitBreaker × World) A → M State A
  on_store m (b, s) = let r = m s in (r.0, (b, r.1))

  abbrev granted : Result Error Bool → Bool
  granted (ok b) = b
  granted (err _) = false

  -- A store without leases lets every relay publish.
  unfoldable pub claim_lease_of :
      Config → Option (AdvancedEventStore World) → Text → World → Bool × World
  claim_lease_of cfg none event_id w = (true, w)
  claim_lease_of cfg (some adv) event_id w =
      let r =
        adv.claim_outbox_lease event_id cfg.node_id (millis (pos 1000) cfg.outbox_lease_ms) w in
      (granted r.0, r.1)

  abbrev unless_failed : Bool × ℕ × Option Error → Bool × ℕ
  unless_failed (quarantined, retries, none) = (quarantined, retries)
  unless_failed (quarantined, retries, some e) = (false, retries)

  unfoldable pub record_failure :
      Config → Option (AdvancedEventStore World) → Text → Error → World → (Bool × ℕ) × World
  record_failure cfg none event_id e w = ((false, 0), w)
  record_failure cfg (some adv) event_id e w =
      let r =
        adv.record_outbox_failure event_id (rt.error_text e)
          (millis (pos 50) cfg.outbox_backoff_base_ms) (millis (pos 200) cfg.outbox_backoff_max_ms)
          (max (pos 0) cfg.outbox_backoff_jitter_pct) (max (pos 1) cfg.outbox_quarantine_after) w in
      (unless_failed r.0, r.1)

  -- The body of the loop of `relayOutboxBatch`; the errors end in traces.
  unfoldable pub relay_event :
      Config → EventBus World → EventStore World → EventRecord → State → State
  unfolding claim_lease_of record_failure
  relay_event cfg bus store evt (b, (s, w)) =
      let claimed = claim_lease_of cfg store.advanced evt.id w in
      if claimed.0
      then (let r =
            on_bus (publish_with_retry rt cfg (some bus) evt.subject evt.payload evt.id)
              (b, (s, claimed.1)) in
          elim r.0 [
            | ok broker_id ↦
                (on_store (store_mark_outbox_published rt (some store) evt.id broker_id) r.1).1
            | err e ↦ (r.1.0, (r.1.1.0, (record_failure cfg store.advanced evt.id e r.1.1.1).1))
          ])
      else (b, (s, claimed.1))

  unfoldable pub relay_events :
      Config → EventBus World → EventStore World → List EventRecord → State → State
  unfolding relay_event
  relay_events cfg bus store [] s = s
  relay_events cfg bus store (evt ∷ evts) s =
      relay_events cfg bus store evts (relay_event cfg bus store evt s)

  -- Without a bus or a store there is nothing to do.
  unfoldable pub relay_outbox_batch :
      Config → Option (EventBus World) → Option (EventStore World) → M State (Unit {0})
  unfolding relay_events
  relay_outbox_batch cfg (some bus) (some store) s =
      let pending =
        on_store
          (store_pending_outbox_events rt (some store) (max (pos 1) cfg.outbox_relay_batch_size))
          s in
      elim pending.0 [
        | ok events ↦ (ok tt, relay_events cfg bus store events pending.1)
        | err e ↦ (err e, pending.1)
      ]
  relay_outbox_batch cfg _ _ s = (ok tt, s)
