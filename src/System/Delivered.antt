-- ===== src/System/Delivered.antt =====
-- What waits in the outbox is delivered (internal/core/app.go over
-- internal/modules/cassstore/module.go).
use shiro_distributed_system.Common.{
  ◌≡◌, refl, sym, ap, subst, ◌∙◌, ℕ, zero, suc, ◌+◌, ◌-◌, ◌<◌, Bool, true, some, Text, ℤ, pos,
  pos_part, arith, ok, Result, Result-cases, nat_key,
}
use shiro_distributed_system.Common.Assoc.{lookup}
use shiro_distributed_system.Config.{Config}
use shiro_distributed_system.Contracts.{Error, EventRecord}
use shiro_distributed_system.Breaker.{CircuitBreaker, breaker_closed, allow}
use shiro_distributed_system.Interfaces.{Runtime}
use shiro_distributed_system.Publish.{
  attempts_of, guarded, with_store, bus_publish, publish_from, publish_with_retry,
  store_mark_outbox_published,
}
use shiro_distributed_system.Relay.{millis, claim_lease_of, relay_event}
use shiro_distributed_system.Cass.Tables.{Tables, OutboxRow, RetryRow}
use shiro_distributed_system.Cass.Driver.{Cassandra, IsLawful, IsReliable, scan}
use shiro_distributed_system.Cass.Outbox.{
  publish_batch, claim_lease, mark_outbox_published, claim_outbox_lease,
}
use shiro_distributed_system.Cass.Outbox.Failures.{scan-value, write-value}
use shiro_distributed_system.Cass.Outbox.Published.{IsSettled, publish_batch-IsSettled}
use shiro_distributed_system.System.{cass_advanced, cass_store, Node, runtime}

-- The broker takes every message at once and touches no table.
pub record Accepts (c : Cassandra) (n : Node c) : Type 0 where
  pub accepts :
      (subject payload id : Text) (w : c.Db × n.host.Rest)
      → (broker_id : Text) × ((n.bus.publish subject payload id w).0 ≡ ok broker_id)
  pub publish_quiet :
      (subject payload id : Text) (w : c.Db × n.host.Rest)
      → (n.bus.publish subject payload id w).1.0 ≡ w.0

-- The event has an outbox row and no lease that runs at the time.
pub record Waits (id : ℕ) (row : OutboxRow) (now : ℕ) (t : Tables) : Type 0 where
  pub present : lookup id t.outbox_events ≡ some row
  pub free :
      (retry : RetryRow) × (lookup id t.outbox_retry_state ≡ some retry) × (retry.lease_until < now)

claim_lease-free :
    (id : ℕ) (owner : Text) (till now : ℕ) (row : OutboxRow) (t : Tables)
    → Waits id row now t
    → ((claim_lease id owner till now t).0 ≡ true)
      × (lookup id (claim_lease id owner till now t).1.outbox_events ≡ some row)
unfolding claim_lease
claim_lease-free id owner till now row t waits =
    let (retry, e, over) = waits.free in ground (arith, e, over, waits.present)

guarded-closed :
    (rt : Runtime) {A : Type 0} (call : rt.World → Result Error A × rt.World)
    (s : CircuitBreaker × rt.World)
    → s.0.state ≡ breaker_closed
    → ((guarded rt call s).0 ≡ (call s.1).0) × ((guarded rt call s).1.1 ≡ (call s.1).1)
unfolding guarded allow
guarded-closed rt call s closed = ground (arith, closed, Result-cases (call s.1).0)

module _ (c : Cassandra) (lawful : IsLawful c) (reliable : IsReliable c) (n : Node c)
    (broker : Accepts c n) where
  open c use {Db, tables, parse_uuid}

  -- The first attempt reaches the broker, and is the only one.
  abbrev Sent :
      Text
      → Text
      → Text
      → CircuitBreaker × (Db × n.host.Rest)
      → Result Error Text × (CircuitBreaker × (Db × n.host.Rest))
      → Type 0
  Sent subject payload id s r =
      (broker_id : Text) × ((n.bus.publish subject payload id s.1).0 ≡ ok broker_id)
      × (r.0 ≡ ok broker_id)
      × (r.1.1 ≡ (n.bus.publish subject payload id s.1).1)

  publish_from-accepted :
      (subject payload id : Text) (most : ℤ) (left : ℕ) (wait : ℤ)
      (s : CircuitBreaker × (Db × n.host.Rest))
      → s.0.state ≡ breaker_closed
      → Sent subject payload id s
          (publish_from (runtime c n) (some n.bus) subject payload id most left wait s)
  unfolding publish_from bus_publish
  publish_from-accepted subject payload id most zero wait s closed =
      let (broker_id, e) = broker.accepts subject payload id s.1 in
      let (same, world) =
        guarded-closed (runtime c n) (n.bus.publish subject payload id) s closed in
      (broker_id, e, same ∙ e, world)
  publish_from-accepted subject payload id most (suc left) wait s closed =
      let (broker_id, e) = broker.accepts subject payload id s.1 in
      let (same, world) =
        guarded-closed (runtime c n) (n.bus.publish subject payload id) s closed in
      rw (same ∙ e, publish_from) (broker_id, e, same ∙ e, world)

  publish-accepted :
      (cfg : Config) (subject payload id : Text) (s : CircuitBreaker × (Db × n.host.Rest))
      → s.0.state ≡ breaker_closed
      → Sent subject payload id s
          (publish_with_retry (runtime c n) cfg (some n.bus) subject payload id s)
  unfolding publish_with_retry
  publish-accepted cfg subject payload id s closed =
      publish_from-accepted subject payload id _ (attempts_of cfg - 1) _ s closed

  claim_lease_of-granted :
      (cfg : Config) (event_id : Text) (id : ℕ) (row : OutboxRow) (w : Db × n.host.Rest)
      → n.session.session ≡ true
      → parse_uuid event_id ≡ some id
      → Waits id row (n.host.clock w.1 0) (tables w.0)
      → let r =
          claim_lease_of (runtime c n) cfg (cass_store c n.host n.session).advanced event_id w in
        (r.0 ≡ true) × (lookup id (tables r.1.0).outbox_events ≡ some row)
  unfolding claim_lease_of cass_store cass_advanced claim_outbox_lease
  claim_lease_of-granted cfg event_id id row w on parsed waits =
      let now = n.host.clock w.1 0 in
      let till = now + pos_part (millis (pos 1000) cfg.outbox_lease_ms) in
      let claim = claim_lease id cfg.node_id till now in
      let (answered, done) = reliable.execute_ok Bool claim w.0 in
      let (granted, kept) = claim_lease-free id cfg.node_id till now row (tables w.0) waits in
      rw (on, parsed, answered, granted) (refl, rw done kept)

  mark-settles :
      (now : ℕ) (event_id broker_id : Text) (id : ℕ) (row : OutboxRow) (db : Db)
      → n.session.session ≡ true
      → parse_uuid event_id ≡ some id
      → lookup id (tables db).outbox_events ≡ some row
      → IsSettled id row now broker_id
          (tables (mark_outbox_published c n.session now event_id broker_id db).1)
  unfolding mark_outbox_published
  mark-settles now event_id broker_id id row db on parsed present =
      let find = λ (t : Tables). lookup id t.outbox_events in
      let batch = publish_batch id row.occurred_at now broker_id in
      let (found, same) = scan-value c lawful reliable find row db present in
      let (written, done) = write-value c lawful reliable batch (scan c OutboxRow find db).1 in
      rw (on, parsed, found)
        (subst (IsSettled id row now broker_id) (sym (done ∙ ap batch same))
          (publish_batch-IsSettled id now broker_id row (tables db) present))

  -- The outbox delivers: with a broker that accepts, closed breakers and a session that does not fail, a
  -- turn of the relay for an event that waits in the outbox, with no lease that runs, claims its
  -- lease, then has the broker publish the event's subject and payload under its identity, and then
  -- marks the event with the id that the broker returned, and does nothing else; the event ends
  -- published under that id, and neither pending nor to be tried again.
  pub relay_event-IsSettled :
      (evt : EventRecord) (id : ℕ) (row : OutboxRow) (b s : CircuitBreaker) (w : Db × n.host.Rest)
      → n.session.session ≡ true
      → parse_uuid evt.id ≡ some id
      → Waits id row (n.host.clock w.1 0) (tables w.0)
      → b.state ≡ breaker_closed
      → s.state ≡ breaker_closed
      → let st = cass_store c n.host n.session in
        let after = relay_event (runtime c n) n.config n.bus st evt (b, (s, w)) in
        let claimed = (claim_lease_of (runtime c n) n.config st.advanced evt.id w).1 in
        let sent = n.bus.publish evt.subject evt.payload evt.id claimed in
        (broker_id : Text) × (sent.0 ≡ ok broker_id)
        × (after.1.1 ≡ (st.mark_outbox_published evt.id broker_id sent.1).1)
        × IsSettled id row (n.host.clock sent.1.1 0) broker_id (tables after.1.1.0)
  unfolding relay_event store_mark_outbox_published with_store cass_store
  relay_event-IsSettled evt id row b s w on parsed waits bus_closed store_closed =
      let st = cass_store c n.host n.session in
      let claimed = claim_lease_of (runtime c n) n.config st.advanced evt.id w in
      let sent = n.bus.publish evt.subject evt.payload evt.id claimed.1 in
      let (granted, there) = claim_lease_of-granted n.config evt.id id row w on parsed waits in
      let r =
        publish_with_retry (runtime c n) n.config (some n.bus) evt.subject evt.payload evt.id
          (b, claimed.1) in
      let (broker_id, taken, returned, world) =
        publish-accepted n.config evt.subject evt.payload evt.id (b, claimed.1) bus_closed in
      let now = n.host.clock sent.1.1 0 in
      let quiet = broker.publish_quiet evt.subject evt.payload evt.id claimed.1 in
      let present : lookup id (tables sent.1.0).outbox_events ≡ some row =
        ap (λ db. lookup id (tables db).outbox_events) quiet ∙ there in
      let settled = mark-settles now evt.id broker_id id row sent.1.0 on parsed present in
      let (_, moved) =
        guarded-closed (runtime c n) (st.mark_outbox_published evt.id broker_id) (s, r.1.1)
          store_closed in
      let marked = moved ∙ ap (λ w'. (st.mark_outbox_published evt.id broker_id w').1) world in
      let final = subst (λ w'. IsSettled id row now broker_id (tables w'.0)) (sym marked) settled in
      rw (granted, returned, relay_event) (broker_id, taken, marked, final)
