-- ===== src/Handler/Refused.antt =====
-- A request that is refused before its event is appended (internal/core/app.go).
use shiro_distributed_system.Common.{
  ◌≡◌, inl, inr, refl, Bool, true, false, not, Option, none, some, Text, arith, Result-cases,
  Bool-cases, nat_eq,
}
use shiro_distributed_system.Config.{Config}
use shiro_distributed_system.Contracts.{EventRecord, AppendResult}
use shiro_distributed_system.Limiter.{Rate}
use shiro_distributed_system.Interfaces.{Runtime, EventBus, EventStore}
use shiro_distributed_system.Publish.{
  publish_with_retry, store_append_event_exactly_once, store_mark_outbox_published,
}
use shiro_distributed_system.Relay.{State, on_bus, on_store}
use shiro_distributed_system.Handler.{
  acquire_guard, PublishRequest, Payload, fill, Response, refused, queued, stored, event_of, Server,
  publish_appended, append_and_publish, admit, answer, handle_publish_event,
}

-- A response that is an error other than 500.
abbrev pub is_refusal : Response → Bool
is_refusal (refused status) = not (nat_eq status 500)
is_refusal (queued id quarantined retries) = false
is_refusal (stored status event) = false

module _ (rt : Runtime) where
  open rt use {World, now}

  publish_appended-is_refusal :
      (cfg : Config) (bus : EventBus World) (store : EventStore World) (a : AppendResult)
      (s : State rt)
      → is_refusal (publish_appended rt cfg bus store a s).0 ≡ false
  unfolding publish_appended
  publish_appended-is_refusal cfg bus store a s =
      let r =
        on_bus rt (publish_with_retry rt cfg (some bus) a.event.subject a.event.payload a.event.id)
          s in
      elim (Bool-cases a.published) [
        | inl done ↦ rw (done, publish_appended) refl
        | inr waits ↦ elim (Result-cases r.0) [
          | inr (x, e) ↦ rw (waits, e, publish_appended) refl
          | inl (broker_id, e) ↦
              let marked =
                on_store rt (store_mark_outbox_published rt (some store) a.event.id broker_id)
                  r.1 in
              elim (Result-cases marked.0) [
                | inr (x, e') ↦ rw (waits, e, e', publish_appended) refl
                | inl (u, e') ↦ rw (waits, e, e', publish_appended) refl
              ]
        ]
      ]

  append_and_publish-is_refusal :
      (cfg : Config) (bus : EventBus World) (store : EventStore World) (event : EventRecord)
      (s : State rt)
      → is_refusal (append_and_publish rt cfg bus store event s).0 ≡ false
  unfolding append_and_publish
  append_and_publish-is_refusal cfg bus store event s =
      let r = on_store rt (store_append_event_exactly_once rt (some store) event) s in
      elim (Result-cases r.0) [
        | inr (x, e) ↦ rw (e, append_and_publish) refl
        | inl (a, e) ↦ rw (e, append_and_publish) (publish_appended-is_refusal cfg bus store a r.1)
      ]

module _ (rt : Runtime) (rate : Rate) (decode : Text → Payload) where
  open rt use {World, now}

  admit_refused :
      (cfg : Config) (bus : EventBus World) (store : EventStore World) (req : PublishRequest)
      (s : Server rt rate)
      → is_refusal (admit rt rate decode cfg bus store req s).0 ≡ true
      → (admit rt rate decode cfg bus store req s).1.state ≡ s.state
  unfolding admit
  admit_refused cfg bus store req s h = ground (
    arith,
    append_and_publish-is_refusal rt cfg bus store (event_of (now s.state.1.1) req) s.state,
  )

  answer_refused :
      (cfg : Config) (bus : Option (EventBus World)) (store : Option (EventStore World))
      (leads : Option Bool) (header : Text) (body : Option PublishRequest) (s : Server rt rate)
      → is_refusal (answer rt rate decode cfg bus store leads header body s).0 ≡ true
      → (answer rt rate decode cfg bus store leads header body s).1.state ≡ s.state
  unfolding answer
  answer_refused cfg none store leads header body s h = refl
  answer_refused cfg (some bus) none leads header body s h = refl
  answer_refused cfg (some bus) (some store) leads header none s h = ground arith
  answer_refused cfg (some bus) (some store) leads header (some req) s h =
      ground (arith, admit_refused cfg bus store (fill header req) s)

  -- A request that is refused with an error other than 500 - the lane is full, another node leads, the
  -- body or the payload is bad, the subject's limit is reached - has touched neither the breakers nor
  -- the world: nothing was stored or published.
  pub handle_publish_event-refuses :
      (cfg : Config) (bus : Option (EventBus World)) (store : Option (EventStore World))
      (leads : Option Bool) (header : Text) (body : Option PublishRequest) (s : Server rt rate)
      → is_refusal (handle_publish_event rt rate decode cfg bus store leads header body s).0 ≡ true
      → (handle_publish_event rt rate decode cfg bus store leads header body s).1.state ≡ s.state
  unfolding handle_publish_event
  handle_publish_event-refuses cfg bus store leads header body s h = ground (
    arith,
    answer_refused cfg bus store leads header body (record s { lane = (acquire_guard s.lane).1 }),
  )
