-- ===== src/Stream.antt =====
-- `handleStream` of internal/core/app.go: a client that follows a subject. The callback of the
-- subscription and the loop of the handler are separate turns, in any order.
pub mod Once
use shiro_distributed_system.Common.{
  ℕ, Bool, true, false, ◌||◌, Option, none, some, List, [], ◌∷◌, ◌++◌, Text, codes, is_empty,
  length, ltb, if◌then◌else◌, Result, ok, err,
}
use shiro_distributed_system.Config.{Config}
use shiro_distributed_system.Contracts.{Error, BusMessage}
use shiro_distributed_system.Breaker.{CircuitBreaker}
use shiro_distributed_system.Interfaces.{Runtime, EventBus, EventStore}
use shiro_distributed_system.Publish.{store_claim_inbox_message}
use shiro_distributed_system.Admin.{HttpRequest}

-- The subject and the consumer of a request.
unfoldable pub subject_of : HttpRequest → Text
subject_of r = let s = r.query (codes "subject") in if is_empty s then codes "events.>" else s

unfoldable pub consumer_of : Config → HttpRequest → Text
consumer_of cfg r =
    let s = r.query (codes "consumer") in if is_empty s then codes "sse:" ++ cfg.node_id else s

-- The channel between the callback and the loop, and the messages that are written, the last first.
pub record Feed : Type 0 where
  pub channel : List BusMessage
  pub written : List BusMessage

abbrev pub empty_feed : Feed
empty_feed = record { channel = []; written = [] }

-- The callback: a message that finds the channel full is dropped.
unfoldable pub offer : BusMessage → Feed → Feed
offer msg f = if ltb (length f.channel) 128 then record f { channel = f.channel ++ msg ∷ [] } else f

-- The methods of writers that the handlers know.
pub data Method : Type 0 where
  header write_body write_header flush : Method

abbrev is_flush : Method → Bool
is_flush flush = true
is_flush _ = false

-- What a handler writes to: the server's own writer with its methods, or a `statusRecorder` around
-- another writer.
pub data ResponseWriter : Type 0 where
  server_writer : List Method → ResponseWriter
  status_recorder : ResponseWriter → ResponseWriter

-- The methods of `http.ResponseWriter`, which are those that a field embedded at this type promotes,
-- whatever else the writer in it has.
abbrev response_writer_methods : List Method
response_writer_methods = header ∷ write_body ∷ write_header ∷ []

-- The methods of a writer's own type: `statusRecorder` has those of the field that it embeds, and
-- declares WriteHeader itself.
unfoldable pub methods : ResponseWriter → List Method
methods (server_writer ms) = ms
methods (status_recorder w) = write_header ∷ response_writer_methods

-- Whether one of them is Flush.
unfoldable pub can_flush : List Method → Bool
can_flush [] = false
can_flush (m ∷ ms) = is_flush m || can_flush ms

-- Whether the type assertion to `http.Flusher` succeeds.
unfoldable pub is_flusher : ResponseWriter → Bool
unfolding methods can_flush
is_flusher w = can_flush (methods w)

-- What `instrument` does to the writer of the routes.
unfoldable pub instrument : {R : Type 0} → (ResponseWriter → R) → ResponseWriter → R
instrument next w = next (status_recorder w)

module _ (rt : Runtime) where
  open rt use {World}

  -- What precedes the loop: an error's status, or an empty feed.
  unfoldable pub open_stream :
      Option (EventBus World) → HttpRequest → ResponseWriter → World → Result ℕ Feed × World
  unfolding subject_of is_flusher
  open_stream none r writer w = (err 500, w)
  open_stream (some bus) r writer w =
      let subscribed = bus.subscribe (subject_of r) w in
      if is_flusher writer
      then (elim subscribed.0 [
        | err e ↦ (err 500, subscribed.1)
        | ok _ ↦ (ok empty_feed, subscribed.1)
      ])
      else (err 500, w)

  abbrev granted : Result Error Bool → Bool
  granted (ok b) = b
  granted (err _) = false

  -- Whether a message is to be written: one with an identity must be claimed, if there is a store.
  unfoldable pub claim :
      Option (EventStore World)
      → Text
      → BusMessage
      → CircuitBreaker × World
      → Bool × (CircuitBreaker × World)
  claim none consumer msg s = (true, s)
  claim (some store) consumer msg s =
      let r = store_claim_inbox_message rt (some store) consumer msg.message_id s in
      if is_empty msg.message_id then (true, s) else (granted r.0, r.1)

  -- The callback runs, the loop takes a message, or the rest of the world moves on.
  pub data Turn : Type 0 where
    arrives : BusMessage → Turn
    takes : Turn
    passes : (CircuitBreaker × World → CircuitBreaker × World) → Turn

  -- The loop takes the first message of the channel, if there is one; `written` is what it has written.
  unfoldable pub take_message :
      Option (EventStore World)
      → Text
      → List BusMessage
      → List BusMessage
      → CircuitBreaker × World
      → Feed × (CircuitBreaker × World)
  unfolding claim
  take_message store consumer [] written s = (record { channel = []; written = written }, s)
  take_message store consumer (msg ∷ rest) written s =
      let r = claim store consumer msg s in
      (record { channel = rest; written = if r.0 then msg ∷ written else written }, r.1)

  unfoldable pub stream_turn :
      Option (EventStore World)
      → Text
      → Turn
      → Feed × (CircuitBreaker × World)
      → Feed × (CircuitBreaker × World)
  unfolding offer take_message
  stream_turn store consumer (arrives msg) (f, s) = (offer msg f, s)
  stream_turn store consumer takes (f, s) = take_message store consumer f.channel f.written s
  stream_turn store consumer (passes move) (f, s) = (f, move s)

  unfoldable pub run_stream :
      Option (EventStore World)
      → Text
      → List Turn
      → Feed × (CircuitBreaker × World)
      → Feed × (CircuitBreaker × World)
  unfolding stream_turn
  run_stream store consumer [] x = x
  run_stream store consumer (t ∷ turns) x =
      run_stream store consumer turns (stream_turn store consumer t x)
