-- ===== src/Admin.antt =====
-- The handlers of queries and of administration (internal/core/app.go). A request is its method and
-- its query parameters, empty where they are not set.
pub mod Effects
pub mod Limits
use shiro_distributed_system.Common.{
  Bool, true, false, Option, none, some, List, [], ◌∷◌, Text, ℤ, pos, ℕ, codes, is_empty, text_eq,
  trim_space, to_lower, if◌then◌else◌, Result, ok, err,
}
use shiro_distributed_system.Config.Parse.{atoi}
use shiro_distributed_system.Contracts.{EventRecord}
use shiro_distributed_system.Breaker.{CircuitBreaker}
use shiro_distributed_system.Interfaces.{Runtime, EventStore, AdvancedEventStore}
use shiro_distributed_system.Publish.{store_recent_events}
use shiro_distributed_system.Handler.{Lane, acquire_guard, release_guard}

pub record HttpRequest : Type 0 where
  pub method : Text
  pub query : Text → Text

pub data Reply : Type 0 where
  -- An error with its status.
  failed : ℕ → Reply
  -- 200: the dead letters.
  dead_letters : List EventRecord → Reply
  -- 200: the event that is replayed.
  replayed : Text → Reply
  -- 200: whether the relay is paused.
  relay_state : Bool → Reply
  -- 200: the stream and its events.
  events : Text → List EventRecord → Reply

abbrev fifty_or : Option ℤ → ℤ
fifty_or none = pos 50
fifty_or (some n) = n

-- The parameter `limit`; one that is no number is passed over.
unfoldable pub limit_of : HttpRequest → ℤ
limit_of r =
    let raw = r.query (codes "limit") in if is_empty raw then pos 50 else fifty_or (atoi raw)

abbrev pub is_get : HttpRequest → Bool
is_get r = text_eq r.method (codes "GET")

abbrev pub is_post : HttpRequest → Bool
is_post r = text_eq r.method (codes "POST")

-- What the store is beyond an `EventStore`.
abbrev pub advanced_of :
    {World : Type 0} → Option (EventStore World) → Option (AdvancedEventStore World)
advanced_of none = none
advanced_of (some store) = store.advanced

module _ {World : Type 0} where
  unfoldable pub handle_dead_letters :
      Option (EventStore World) → HttpRequest → World → Reply × World
  unfolding limit_of
  handle_dead_letters store r w =
      if is_get r
      then (elim (advanced_of store) [
        | none ↦ (failed 501, w)
        | some adv ↦
            let listed = adv.list_dead_letters (limit_of r) w in
            elim listed.0 [
              | err e ↦ (failed 500, listed.1)
              | ok found ↦ (dead_letters found, listed.1)
            ]
      ])
      else (failed 405, w)

  unfoldable pub handle_replay_dead_letter :
      Option (EventStore World) → HttpRequest → World → Reply × World
  handle_replay_dead_letter store r w =
      let id = trim_space (r.query (codes "id")) in
      if is_post r
      then (elim (advanced_of store) [
        | none ↦ (failed 501, w)
        | some adv ↦
            let done = adv.replay_dead_letter id w in
            if is_empty id
            then (failed 400, w)
            else elim done.0 [ err e ↦ (failed 500, done.1) | ok _ ↦ (replayed id, done.1) ]
      ])
      else (failed 405, w)

-- The state is `outboxPaused`.
unfoldable pub handle_outbox_relay_admin : HttpRequest → Bool → Reply × Bool
handle_outbox_relay_admin r paused =
    let action = trim_space (to_lower (r.query (codes "action"))) in
    if is_get r
    then (relay_state paused, paused)
    else if is_post r
    then if text_eq action (codes "pause")
      then (relay_state true, true)
      else if text_eq action (codes "resume")
      then (relay_state false, false)
      else (failed 400, paused)
    else (failed 405, paused)

module _ (rt : Runtime) where
  open rt use {World}

  abbrev pub stream_of : HttpRequest → Text
  stream_of r =
      let stream = r.query (codes "stream") in if is_empty stream then codes "default" else stream

  unfoldable pub listing :
      EventStore World → HttpRequest → CircuitBreaker × World → Reply × (CircuitBreaker × World)
  unfolding limit_of
  listing store r s =
      let found = store_recent_events rt (some store) (stream_of r) (limit_of r) s in
      elim found.0 [
        | err e ↦ (failed 500, found.1)
        | ok evts ↦ (events (stream_of r) evts, found.1)
      ]

  -- The state is the query lane, the breaker of the store and the world.
  unfoldable pub handle_list_events :
      Option (EventStore World)
      → HttpRequest
      → Lane × (CircuitBreaker × World)
      → Reply × (Lane × (CircuitBreaker × World))
  unfolding listing
  handle_list_events none r (lane, s) =
      let asked = acquire_guard lane in
      if asked.0 then (failed 500, (release_guard asked.1, s)) else (failed 503, (lane, s))
  handle_list_events (some store) r (lane, s) =
      let asked = acquire_guard lane in
      let found = listing store r s in
      if asked.0 then (found.0, (release_guard asked.1, found.1)) else (failed 503, (lane, s))
