-- ===== src/Handler/Keeps.antt =====
-- What the calls of the broker and the store keep, the rest of a publish keeps
-- (internal/core/app.go).
use shiro_distributed_system.Common.{
  ◌≡◌, ◌≢◌, inl, inr, ℕ, zero, suc, ◌-◌, Bool, Option, some, Text, ℤ, arith, ok, Result-cases, none,
  Bool-cases,
}
use shiro_distributed_system.Config.{Config}
use shiro_distributed_system.Contracts.{EventRecord, AppendResult, Error}
use shiro_distributed_system.Monad.{M}
use shiro_distributed_system.Breaker.{CircuitBreaker, allow}
use shiro_distributed_system.Limiter.{Rate}
use shiro_distributed_system.SubjectLimiter
use shiro_distributed_system.Interfaces.{Runtime, EventBus, EventStore}
use shiro_distributed_system.Publish.{
  attempts_of, longer, guarded, bus_publish, with_store, publish_from, publish_with_retry,
  store_append_event_exactly_once, store_mark_outbox_published,
}
use shiro_distributed_system.Relay.{State, on_bus, on_store, record_failure}
use shiro_distributed_system.Handler.{
  acquire_guard, PublishRequest, Payload, fill, validate_publish_request, Response, refused, queued,
  stored, event_of, Server, follows, publish_appended, append_and_publish, admit, answer,
  handle_publish_event,
}

-- The calls after an append, and the time that passes in a wait, leave `Q` true.
pub record AreKept (rt : Runtime) (bus : EventBus rt.World) (store : EventStore rt.World)
    (Q : rt.World → Type 0) : Type 0 where
  pub publish_keeps :
      (subject payload id : Text) (w : rt.World) → Q w → Q (bus.publish subject payload id w).1
  pub wait_keeps : (d : ℤ) (w : rt.World) → Q w → Q (rt.wait d w).1
  pub mark_keeps :
      (id broker_id : Text) (w : rt.World) → Q w → Q (store.mark_outbox_published id broker_id w).1
  pub failure_keeps :
      (cfg : Config) (id : Text) (e : Error) (w : rt.World)
      → Q w
      → Q (record_failure rt cfg store.advanced id e w).1

guarded-ok_world :
    (rt : Runtime) {A : Type 0} (call : M rt.World A) (s : CircuitBreaker × rt.World) (a : A)
    → (guarded rt call s).0 ≡ ok a
    → (guarded rt call s).1.1 ≡ (call s.1).1
unfolding guarded
guarded-ok_world rt call s a h = ground arith

module _ (rt : Runtime) (bus : EventBus rt.World) (store : EventStore rt.World)
    (Q : rt.World → Type 0) (kept : AreKept rt bus store Q) where
  open rt use {World, now}

  guarded-keeps :
      {A : Type 0} (call : M World A) (s : CircuitBreaker × World)
      → ((w : World) → Q w → Q (call w).1)
      → Q s.1
      → Q (guarded rt call s).1.1
  unfolding guarded
  guarded-keeps call s keeps h = elim (Bool-cases (allow s.0 (now s.1)).1) [
    | inr shut ↦ rw (shut, guarded) h
    | inl open_now ↦ elim (Result-cases (call s.1).0) [
      | inl (a, e) ↦ rw (open_now, e, guarded) (keeps s.1 h)
      | inr (x, e) ↦ rw (open_now, e, guarded) (keeps s.1 h)
    ]
  ]

  bus_publish-keeps :
      (subject payload id : Text) (s : CircuitBreaker × World)
      → Q s.1
      → Q (bus_publish rt (some bus) subject payload id s).1.1
  unfolding bus_publish
  bus_publish-keeps subject payload id s h =
      guarded-keeps (bus.publish subject payload id) s (kept.publish_keeps subject payload id) h

  publish_from-keeps :
      (subject payload id : Text) (most : ℤ) (left : ℕ) (wait : ℤ) (s : CircuitBreaker × World)
      → Q s.1
      → Q (publish_from rt (some bus) subject payload id most left wait s).1.1
  unfolding publish_from
  publish_from-keeps subject payload id most zero wait s h =
      bus_publish-keeps subject payload id s h
  publish_from-keeps subject payload id most (suc left) wait s h =
      let r = bus_publish rt (some bus) subject payload id s in
      let slept = rt.wait wait r.1.1 in
      let h' = bus_publish-keeps subject payload id s h in
      let h'' = kept.wait_keeps wait r.1.1 h' in
      elim (Result-cases r.0) [
        | inl (broker_id, e) ↦ rw (e, publish_from) h'
        | inr (x, e) ↦ elim (Bool-cases slept.0) [
          | inr over ↦ rw (e, over, publish_from) h''
          | inl fires ↦
              rw (e, fires, publish_from)
                (publish_from-keeps subject payload id most left (longer most wait) (r.1.0, slept.1)
                  h'')
        ]
      ]

  publish_with_retry-keeps :
      (cfg : Config) (subject payload id : Text) (s : CircuitBreaker × World)
      → Q s.1
      → Q (publish_with_retry rt cfg (some bus) subject payload id s).1.1
  unfolding publish_with_retry
  publish_with_retry-keeps cfg subject payload id s h =
      publish_from-keeps subject payload id _ (attempts_of cfg - 1) _ s h

  mark-keeps :
      (id broker_id : Text) (s : CircuitBreaker × World)
      → Q s.1
      → Q (store_mark_outbox_published rt (some store) id broker_id s).1.1
  unfolding store_mark_outbox_published with_store
  mark-keeps id broker_id s h =
      guarded-keeps (store.mark_outbox_published id broker_id) s (kept.mark_keeps id broker_id) h

  pub publish_appended-keeps :
      (cfg : Config) (a : AppendResult) (s : State rt)
      → Q s.1.1
      → Q (publish_appended rt cfg bus store a s).1.1.1
  unfolding publish_appended
  publish_appended-keeps cfg a s h =
      let r =
        on_bus rt (publish_with_retry rt cfg (some bus) a.event.subject a.event.payload a.event.id)
          s in
      let h' =
        publish_with_retry-keeps cfg a.event.subject a.event.payload a.event.id (s.0, s.1.1) h in
      elim (Bool-cases a.published) [
        | inl done ↦ rw (done, publish_appended) h
        | inr waits ↦ elim (Result-cases r.0) [
          | inr (x, e) ↦
              rw (waits, e, publish_appended) (kept.failure_keeps cfg a.event.id x r.1.1.1 h')
          | inl (broker_id, e) ↦
              let marked =
                on_store rt (store_mark_outbox_published rt (some store) a.event.id broker_id)
                  r.1 in
              let h'' = mark-keeps a.event.id broker_id r.1.1 h' in
              elim (Result-cases marked.0) [
                | inr (x, e') ↦ rw (waits, e, e', publish_appended) h''
                | inl (u, e') ↦ rw (waits, e, e', publish_appended) h''
              ]
        ]
      ]

-- The identity that a response gives the event.
abbrev pub id_of : Response → Option Text
id_of (refused status) = none
id_of (queued id quarantined retries) = some id
id_of (stored status event) = some event.id

pub no_id : (id : Text) → id_of (refused 500) ≢ some id
no_id id e = ground arith

module _ (rt : Runtime) (rate : Rate) (decode : Text → Payload) (bus : EventBus rt.World)
    (store : EventStore rt.World) (Q : rt.World → Type 0) (kept : AreKept rt bus store Q) where
  open rt use {World, now}

  append_and_publish-keeps :
      (cfg : Config) (event : EventRecord) (s : State rt) (id : Text)
      → id_of (append_and_publish rt cfg bus store event s).0 ≡ some id
      → Q (store.append_event_exactly_once event s.1.1).1
      → Q (append_and_publish rt cfg bus store event s).1.1.1
  unfolding append_and_publish store_append_event_exactly_once with_store
  append_and_publish-keeps cfg event s id given h =
      let r = on_store rt (store_append_event_exactly_once rt (some store) event) s in
      elim (Result-cases r.0) [
        | inr (x, e) ↦ absurd (no_id id (rw (e, append_and_publish) at given))
        | inl (a, e) ↦
            rw (e, append_and_publish)
              (publish_appended-keeps rt bus store Q kept cfg a r.1
                (rw (guarded-ok_world rt (store.append_event_exactly_once event) s.1 a e) h))
      ]

  admit-keeps :
      (cfg : Config) (req : PublishRequest) (s : Server rt rate) (id : Text)
      → id_of (admit rt rate decode cfg bus store req s).0 ≡ some id
      → Q (store.append_event_exactly_once (event_of (now s.state.1.1) req) s.state.1.1).1
      → Q (admit rt rate decode cfg bus store req s).1.state.1.1
  unfolding admit
  admit-keeps cfg req s id given h =
      let w = s.state.1.1 in
      elim (Bool-cases (validate_publish_request cfg req (decode req.payload))) [
        | inr bad ↦ absurd (no_id id (rw (bad, admit) at given))
        | inl good ↦ elim (Bool-cases (SubjectLimiter.allow rate s.limiter req.subject (now w)).1) [
          | inr many ↦ absurd (no_id id (rw (good, many, admit) at given))
          | inl few ↦
              rw (good, few, admit)
                (append_and_publish-keeps cfg (event_of (now w) req) s.state id
                  (rw (good, few, admit) at given) h)
        ]
      ]

  -- What the append of an acknowledged request makes true, and the later calls keep, is true at its
  -- end.
  pub handle_publish_event-keeps :
      (cfg : Config) (leads : Option Bool) (header : Text) (req : PublishRequest)
      (s : Server rt rate) (id : Text)
      → let r =
          handle_publish_event rt rate decode cfg
            (some bus)
            (some store)
            leads
            header
            (some req)
            s in
        id_of r.0 ≡ some id
        → Q
            (store.append_event_exactly_once
              (event_of (now s.state.1.1) (fill header req))
              s.state.1.1).1
        → Q r.1.state.1.1
  unfolding handle_publish_event answer acquire_guard
  handle_publish_event-keeps cfg leads header req s id given h =
      let entered = record s { lane = (acquire_guard s.lane).1 } in
      elim (Bool-cases (acquire_guard s.lane).0) [
        | inr busy ↦ absurd (no_id id (rw (busy, handle_publish_event) at given))
        | inl free ↦ elim (Bool-cases (follows rt rate decode cfg leads)) [
          | inl follower ↦
              absurd (no_id id (rw (free, follower, handle_publish_event, answer) at given))
          | inr leader ↦
              rw (free, leader, handle_publish_event, answer)
                (admit-keeps cfg (fill header req) entered id
                  (rw (free, leader, handle_publish_event, answer) at given) h)
        ]
      ]
