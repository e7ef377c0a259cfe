-- ===== src/Relay/Backed.antt =====
-- Every attempt of the relay to publish is backed by a lease (internal/core/app.go).
use shiro_distributed_system.Common.{
  ℕ, suc, ◌+◌, ◌*◌, ◌≡◌, ◌≤◌, inl, inr, refl, true, false, some, List, [], ◌∷◌, Text, ℤ, pos, arith,
  Result, ok, Result-cases, Bool-cases,
}
use shiro_distributed_system.GoMax.{max}
use shiro_distributed_system.Config.{Config}
use shiro_distributed_system.Contracts.{Error, EventRecord}
use shiro_distributed_system.Breaker.{CircuitBreaker}
use shiro_distributed_system.Interfaces.{Runtime, EventBus, EventStore, AdvancedEventStore}
use shiro_distributed_system.Publish.{
  attempts_of, guarded, with_store, publish_with_retry, store_mark_outbox_published,
  store_pending_outbox_events,
}
use shiro_distributed_system.Publish.Attempts.{
  Counted, publish_with_retry-calls, publish_with_retry-keeps,
}
use shiro_distributed_system.Relay.{
  State, millis, claim_lease_of, record_failure, relay_event, relay_events, relay_outbox_batch,
}

-- A store that counts the leases that it grants and does not call the broker: the two counters change
-- in no other way.
pub record Accounts (World : Type 0) (store : EventStore World) (adv : AdvancedEventStore World)
    (calls grants : World → ℕ) : Type 0 where
  pub lease_calls :
      (id owner : Text) (d : ℤ) (w : World)
      → calls (adv.claim_outbox_lease id owner d w).1 ≡ calls w
  pub lease_grants :
      (id owner : Text) (d : ℤ) (w : World)
      → (adv.claim_outbox_lease id owner d w).0 ≡ ok true
      → suc (grants w) ≤ grants (adv.claim_outbox_lease id owner d w).1
  pub lease_keeps :
      (id owner : Text) (d : ℤ) (w : World)
      → grants w ≤ grants (adv.claim_outbox_lease id owner d w).1
  pub failure_calls :
      (id e : Text) (base most percent after : ℤ) (w : World)
      → (calls (adv.record_outbox_failure id e base most percent after w).1 ≡ calls w)
        × (grants (adv.record_outbox_failure id e base most percent after w).1 ≡ grants w)
  pub mark_calls :
      (id broker_id : Text) (w : World)
      → (calls (store.mark_outbox_published id broker_id w).1 ≡ calls w)
        × (grants (store.mark_outbox_published id broker_id w).1 ≡ grants w)
  pub pending_calls :
      (limit : ℤ) (w : World)
      → (calls (store.pending_outbox_events limit w).1 ≡ calls w)
        × (grants (store.pending_outbox_events limit w).1 ≡ grants w)

-- From one world to another with some leases granted, and at most so many calls for each.
pub record IsBacked {World : Type 0} (calls grants : World → ℕ) (each : ℕ) (w w' : World)
    : Type 0 where
  pub leases : ℕ
  pub calls_le : calls w' ≤ each * leases + calls w
  pub grants_ge : leases + grants w ≤ grants w'

module _ {World : Type 0} (calls grants : World → ℕ) (each : ℕ) where
  IsBacked-keeps :
      (w w' : World) → calls w' ≡ calls w → grants w ≤ grants w' → IsBacked calls grants each w w'
  IsBacked-keeps w w' same more = record {
    leases = 0;
    calls_le = ground arith;
    grants_ge = ground arith;
  }

  IsBacked-once :
      (w w' : World)
      → calls w' ≤ each + calls w
      → suc (grants w) ≤ grants w'
      → IsBacked calls grants each w w'
  IsBacked-once w w' few more = record {
    leases = 1;
    calls_le = omega arith;
    grants_ge = omega arith;
  }

  IsBacked-trans :
      (u v w : World)
      → IsBacked calls grants each u v
      → IsBacked calls grants each v w
      → IsBacked calls grants each u w
  IsBacked-trans u v w p q = record {
    leases = p.leases + q.leases;
    calls_le = omega (arith, p.calls_le, q.calls_le);
    grants_ge = omega (arith, p.grants_ge, q.grants_ge);
  }

-- What the relay's theorem asks of its surroundings.
pub record IsAccounted (rt : Runtime) (bus : EventBus rt.World) (store : EventStore rt.World)
    (adv : AdvancedEventStore rt.World) (calls grants : rt.World → ℕ) : Type 0 where
  pub counted : Counted rt bus calls
  pub accounts : Accounts rt.World store adv calls grants
  pub publish_grants :
      (subject payload id : Text) (w : rt.World)
      → grants (bus.publish subject payload id w).1 ≡ grants w
  pub wait_grants : (d : ℤ) (w : rt.World) → grants (rt.wait d w).1 ≡ grants w

module _ (rt : Runtime) (cfg : Config) (bus : EventBus rt.World) (store : EventStore rt.World)
    (adv : AdvancedEventStore rt.World) (has : store.advanced ≡ some adv)
    (calls grants : rt.World → ℕ) (h : IsAccounted rt bus store adv calls grants) where
  open rt use {World}

  abbrev Backed : State rt → State rt → Type 0
  Backed s s' = IsBacked calls grants (attempts_of cfg) s.1.1 s'.1.1

  -- A call of the store that leaves both counters alone leaves them alone behind its breaker.
  with_store-keeps :
      {A : Type 0} (call : EventStore World → World → Result Error A × World)
      (s : CircuitBreaker × World)
      → calls (call store s.1).1 ≡ calls s.1
      → grants (call store s.1).1 ≡ grants s.1
      → (calls (with_store rt call (some store) s).1.1 ≡ calls s.1)
        × (grants (with_store rt call (some store) s).1.1 ≡ grants s.1)
  unfolding with_store guarded
  with_store-keeps call s p q = ground arith

  claim-keeps :
      (id : Text) (w : World)
      → (calls (claim_lease_of rt cfg store.advanced id w).1 ≡ calls w)
        × (grants w ≤ grants (claim_lease_of rt cfg store.advanced id w).1)
  unfolding claim_lease_of
  claim-keeps id w =
      rw (has, claim_lease_of)
        (h.accounts.lease_calls id cfg.node_id _ w, h.accounts.lease_keeps id cfg.node_id _ w)

  claim-grants :
      (id : Text) (w : World)
      → (claim_lease_of rt cfg store.advanced id w).0 ≡ true
      → suc (grants w) ≤ grants (claim_lease_of rt cfg store.advanced id w).1
  unfolding claim_lease_of
  claim-grants id w lease_ok =
      let lease = millis (pos 1000) cfg.outbox_lease_ms in
      let claimed = adv.claim_outbox_lease id cfg.node_id lease w in
      let lease_ok' = rw (has, claim_lease_of) at lease_ok in
      rw (has, claim_lease_of)
        (elim (Result-cases claimed.0) [
          | inl (true, e) ↦ h.accounts.lease_grants id cfg.node_id lease w e
          | inl (false, e) ↦ absurd (ground arith)
          | inr (x, e) ↦ absurd (ground arith)
        ])

  failure-keeps :
      (id : Text) (e : Error) (w : World)
      → (calls (record_failure rt cfg store.advanced id e w).1 ≡ calls w)
        × (grants (record_failure rt cfg store.advanced id e w).1 ≡ grants w)
  unfolding record_failure
  failure-keeps id e w = rw (has, record_failure) (h.accounts.failure_calls id _ _ _ _ _ w)

  -- An event: no lease and no call, or a lease and the attempts that are configured.
  relay_event-Backed :
      (evt : EventRecord) (s : State rt) → Backed s (relay_event rt cfg bus store evt s)
  unfolding relay_event claim_lease_of record_failure store_mark_outbox_published
  relay_event-Backed evt s =
      let claimed = claim_lease_of rt cfg store.advanced evt.id s.1.1 in
      let (same, more) = claim-keeps evt.id s.1.1 in
      let bus_side : CircuitBreaker × World = (s.0, claimed.1) in
      let r = publish_with_retry rt cfg (some bus) evt.subject evt.payload evt.id bus_side in
      let few =
        publish_with_retry-calls rt bus calls h.counted cfg evt.subject evt.payload evt.id
          bus_side in
      let kept =
        publish_with_retry-keeps rt bus grants h.publish_grants h.wait_grants cfg evt.subject
          evt.payload evt.id bus_side in
      elim (Bool-cases claimed.0) [
        | inr refused ↦ rw (refused, relay_event) (IsBacked-keeps calls grants _ _ _ same more)
        | inl lease_ok ↦
            let lease = claim-grants evt.id s.1.1 lease_ok in
            elim (Result-cases r.0) [
              | inl (broker_id, e) ↦
                  let marked =
                    with_store-keeps (λ st. st.mark_outbox_published evt.id broker_id)
                      (s.1.0, r.1.1) (h.accounts.mark_calls evt.id broker_id r.1.1).0
                      (h.accounts.mark_calls evt.id broker_id r.1.1).1 in
                  rw (lease_ok, e, relay_event)
                    (IsBacked-once calls grants _ _ _ (ground arith) (ground arith))
              | inr (x, e) ↦
                  let recorded = failure-keeps evt.id x r.1.1 in
                  rw (lease_ok, e, relay_event)
                    (IsBacked-once calls grants _ _ _ (ground arith) (ground arith))
            ]
      ]

  relay_events-Backed :
      (evts : List EventRecord) (s : State rt) → Backed s (relay_events rt cfg bus store evts s)
  unfolding relay_events
  relay_events-Backed [] s = IsBacked-keeps calls grants _ _ _ refl (omega arith)
  relay_events-Backed (evt ∷ evts) s =
      IsBacked-trans calls grants _ _ _ _ (relay_event-Backed evt s)
        (relay_events-Backed evts (relay_event rt cfg bus store evt s))

  -- However many events are pending and whatever fails, the broker is called at most as often as is
  -- configured for one event times the leases that the store granted to the batch: an event whose
  -- lease was refused, or could not be claimed, is not published.
  pub relay_outbox_batch-IsBacked :
      (s : State rt)
      → IsBacked calls grants
          (attempts_of cfg)
          s.1.1
          (relay_outbox_batch rt cfg (some bus) (some store) s).1.1.1
  unfolding relay_outbox_batch store_pending_outbox_events
  relay_outbox_batch-IsBacked s =
      let limit = max (pos 1) cfg.outbox_relay_batch_size in
      let polled = store_pending_outbox_events rt (some store) limit s.1 in
      let (same, kept) =
        with_store-keeps (λ st. st.pending_outbox_events limit) s.1
          (h.accounts.pending_calls limit s.1.1).0 (h.accounts.pending_calls limit s.1.1).1 in
      let start =
        IsBacked-keeps calls grants (attempts_of cfg) s.1.1 polled.1.1 same (ground arith) in
      elim (Result-cases polled.0) [
        | inr (x, e) ↦ rw (e, relay_outbox_batch) start
        | inl (events, e) ↦
            rw (e, relay_outbox_batch)
              (IsBacked-trans calls grants _ _ _ _ start
                (relay_events-Backed events (s.0, polled.1)))
      ]
