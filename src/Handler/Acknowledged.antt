-- ===== src/Handler/Acknowledged.antt =====
-- What a response to a publish stands for (internal/core/app.go).
use shiro_distributed_system.Common.{
  ◌≡◌, inl, inr, refl, Bool, Option, some, Text, arith, ok, Result-cases, Bool-cases, if◌then◌else◌,
}
use shiro_distributed_system.Config.{Config}
use shiro_distributed_system.Contracts.{EventRecord, AppendResult}
use shiro_distributed_system.Monad.{M}
use shiro_distributed_system.Breaker.{CircuitBreaker}
use shiro_distributed_system.Limiter.{Rate}
use shiro_distributed_system.SubjectLimiter
use shiro_distributed_system.Interfaces.{Runtime, EventBus, EventStore}
use shiro_distributed_system.Publish.{
  guarded, with_store, publish_with_retry, store_append_event_exactly_once,
  store_mark_outbox_published,
}
use shiro_distributed_system.Relay.{State, on_bus, on_store}
use shiro_distributed_system.Handler.{
  acquire_guard, release_guard, PublishRequest, Payload, fill, validate_publish_request, Response,
  refused, queued, stored, event_of, Server, follows, publish_appended, append_and_publish, admit,
  answer, handle_publish_event,
}

-- The response speaks of what the store returned.
abbrev pub Reports : AppendResult → Response → Type 0
Reports a (refused status) = Unit {0}
Reports a (queued id quarantined retries) = a.event.id ≡ id
Reports a (stored status event) = (a.event ≡ event) × (status ≡ (if a.duplicate then 200 else 201))

-- A response other than an error means that the store returned a result for the event in this world,
-- of which the response speaks.
abbrev pub IsBackedBy :
    {World : Type 0} → EventStore World → EventRecord → World → Response → Type 0
IsBackedBy store event w (refused status) = Unit {0}
IsBackedBy store event w (queued id quarantined retries) =
    (a : AppendResult) × ((store.append_event_exactly_once event w).0 ≡ ok a)
    × Reports a (queued id quarantined retries)
IsBackedBy store event w (stored status e) =
    (a : AppendResult) × ((store.append_event_exactly_once event w).0 ≡ ok a)
    × Reports a (stored status e)

Reports-IsBackedBy :
    {World : Type 0} (store : EventStore World) (event : EventRecord) (w : World) (a : AppendResult)
    (r : Response)
    → (store.append_event_exactly_once event w).0 ≡ ok a
    → Reports a r
    → IsBackedBy store event w r
Reports-IsBackedBy store event w a (refused status) e h = tt
Reports-IsBackedBy store event w a (queued id quarantined retries) e h = (a, e, h)
Reports-IsBackedBy store event w a (stored status event') e h = (a, e, h)

module _ (rt : Runtime) where
  open rt use {World, now}

  guarded-ok :
      {A : Type 0} (call : M World A) (s : CircuitBreaker × World) (a : A)
      → (guarded rt call s).0 ≡ ok a
      → (call s.1).0 ≡ ok a
  unfolding guarded
  guarded-ok call s a h = ground arith

  publish_appended-Reports :
      (cfg : Config) (bus : EventBus World) (store : EventStore World) (a : AppendResult)
      (s : State rt)
      → Reports a (publish_appended rt cfg bus store a s).0
  unfolding publish_appended
  publish_appended-Reports cfg bus store a s =
      let r =
        on_bus rt (publish_with_retry rt cfg (some bus) a.event.subject a.event.payload a.event.id)
          s in
      elim (Bool-cases a.published) [
        | inl done ↦ rw (done, publish_appended) (refl, refl)
        | inr waits ↦ elim (Result-cases r.0) [
          | inr (x, e) ↦ rw (waits, e, publish_appended) refl
          | inl (broker_id, e) ↦
              let marked =
                on_store rt (store_mark_outbox_published rt (some store) a.event.id broker_id)
                  r.1 in
              elim (Result-cases marked.0) [
                | inr (x, e') ↦ rw (waits, e, e', publish_appended) tt
                | inl (u, e') ↦ rw (waits, e, e', publish_appended) (refl, refl)
              ]
        ]
      ]

  append_and_publish-IsBackedBy :
      (cfg : Config) (bus : EventBus World) (store : EventStore World) (event : EventRecord)
      (s : State rt)
      → IsBackedBy store event s.1.1 (append_and_publish rt cfg bus store event s).0
  unfolding append_and_publish store_append_event_exactly_once with_store
  append_and_publish-IsBackedBy cfg bus store event s =
      let r = on_store rt (store_append_event_exactly_once rt (some store) event) s in
      elim (Result-cases r.0) [
        | inr (x, e) ↦ rw (e, append_and_publish) tt
        | inl (a, e) ↦
            rw (e, append_and_publish)
              (Reports-IsBackedBy store event s.1.1 a _
                (guarded-ok (store.append_event_exactly_once event) s.1 a e)
                (publish_appended-Reports cfg bus store a r.1))
      ]

module _ (rt : Runtime) (rate : Rate) (decode : Text → Payload) where
  open rt use {World, now}

  admit-IsBackedBy :
      (cfg : Config) (bus : EventBus World) (store : EventStore World) (req : PublishRequest)
      (s : Server rt rate)
      → IsBackedBy store
          (event_of (now s.state.1.1) req)
          s.state.1.1
          (admit rt rate decode cfg bus store req s).0
  unfolding admit
  admit-IsBackedBy cfg bus store req s =
      let w = s.state.1.1 in
      elim (Bool-cases (validate_publish_request cfg req (decode req.payload))) [
        | inr bad ↦ rw (bad, admit) tt
        | inl good ↦ elim (Bool-cases (SubjectLimiter.allow rate s.limiter req.subject (now w)).1) [
          | inr many ↦ rw (good, many, admit) tt
          | inl few ↦
              rw (good, few, admit)
                (append_and_publish-IsBackedBy rt cfg bus store (event_of (now w) req) s.state)
        ]
      ]

  answer-IsBackedBy :
      (cfg : Config) (bus : EventBus World) (store : EventStore World) (leads : Option Bool)
      (header : Text) (req : PublishRequest) (s : Server rt rate)
      → IsBackedBy store
          (event_of (now s.state.1.1) (fill header req))
          s.state.1.1
          (answer rt rate decode cfg (some bus) (some store) leads header (some req) s).0
  unfolding answer
  answer-IsBackedBy cfg bus store leads header req s =
      elim (Bool-cases (follows rt rate decode cfg leads)) [
        | inl follower ↦ rw (follower, answer) tt
        | inr leader ↦ rw (leader, answer) (admit-IsBackedBy cfg bus store (fill header req) s)
      ]

  -- The service acknowledges only what is stored: a response of 201, 200 or 202 to a request means
  -- that, at the moment of the request, the store's append of the event that the request stands for,
  -- with its defaults, returned a result; the response carries that result's identity or event, and is
  -- 200 exactly when the result is a duplicate.
  pub handle_publish_event-IsBackedBy :
      (cfg : Config) (bus : EventBus World) (store : EventStore World) (leads : Option Bool)
      (header : Text) (req : PublishRequest) (s : Server rt rate)
      → IsBackedBy store
          (event_of (now s.state.1.1) (fill header req))
          s.state.1.1
          (handle_publish_event rt rate decode cfg
            (some bus)
            (some store)
            leads
            header
            (some req)
            s).0
  unfolding handle_publish_event acquire_guard
  handle_publish_event-IsBackedBy cfg bus store leads header req s =
      elim (Bool-cases (acquire_guard s.lane).0) [
        | inr busy ↦ rw (busy, handle_publish_event) tt
        | inl free ↦
            rw (free, handle_publish_event)
              (answer-IsBackedBy cfg bus store leads header req
                (record s { lane = (acquire_guard s.lane).1 }))
      ]

  answer-lane :
      (cfg : Config) (bus : Option (EventBus World)) (store : Option (EventStore World))
      (leads : Option Bool) (header : Text) (body : Option PublishRequest) (s : Server rt rate)
      → (answer rt rate decode cfg bus store leads header body s).1.lane ≡ s.lane
  unfolding answer admit
  answer-lane cfg bus store leads header body s = ground arith

  -- The handler gives its place in the publish lane back on every path: the lane is as it was before.
  handle_publish_event-lane :
      (cfg : Config) (bus : Option (EventBus World)) (store : Option (EventStore World))
      (leads : Option Bool) (header : Text) (body : Option PublishRequest) (s : Server rt rate)
      → (handle_publish_event rt rate decode cfg bus store leads header body s).1.lane ≡ s.lane
  unfolding handle_publish_event acquire_guard release_guard
  handle_publish_event-lane cfg bus store leads header body s = ground (
    arith,
    answer-lane cfg bus store leads header body (record s { lane = (acquire_guard s.lane).1 }),
  )
