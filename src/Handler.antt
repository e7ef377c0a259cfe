-- ===== src/Handler.antt =====
-- `handlePublishEvent` of internal/core/app.go, with the validation of its request. The body comes
-- decoded, and what encoding/json makes of a payload is an argument.
pub mod Acknowledged
pub mod Keeps
pub mod Refused
use shiro_distributed_system.Common.{
  ℕ, suc, ◌-◌, Bool, true, false, not, ◌&&◌, ◌||◌, Option, none, some, List, [], ◌∷◌, ◌++◌, Text, ℤ,
  pos, leb_ℤ, ltb_ℤ, ltb, is_empty, text_eq, trim_space, codes, select, map, if◌then◌else◌, Result,
  ok, err, text_key,
}
use shiro_distributed_system.Common.Assoc.{Map, lookup}
use shiro_distributed_system.Config.{Config, VersionRange}
use shiro_distributed_system.Config.Parse.{non_empty}
use shiro_distributed_system.Contracts.{Error, EventRecord, AppendResult}
use shiro_distributed_system.Breaker.{CircuitBreaker}
use shiro_distributed_system.Limiter.{Rate}
use shiro_distributed_system.SubjectLimiter
use shiro_distributed_system.SubjectLimiter.{SubjectRateLimiter}
use shiro_distributed_system.Interfaces.{Runtime, EventBus, EventStore}
use shiro_distributed_system.Publish.{
  publish_with_retry, store_append_event_exactly_once, store_mark_outbox_published,
}
use shiro_distributed_system.Relay.{State, on_bus, on_store, record_failure}

-- A channel used as a counter: how many are in and how many fit.
pub record Lane : Type 0 where
  pub used : ℕ
  pub capacity : ℕ

unfoldable pub acquire_guard : Lane → Bool × Lane
acquire_guard l =
    if ltb l.used l.capacity then (true, record l { used = suc l.used }) else (false, l)

unfoldable pub release_guard : Lane → Lane
release_guard l = record l { used = l.used - 1 }

pub record PublishRequest : Type 0 where
  pub stream : Text
  pub subject : Text
  pub event_type : Text
  pub schema_version : ℤ
  pub idempotency_key : Text
  pub payload : Text

-- What json.Unmarshal makes of a payload: an object has fields.
pub data Payload : Type 0 where
  malformed : Payload
  no_object : Payload
  object : List Text → Payload

-- The defaults of a request; `header` is the value of `Idempotency-Key`.
unfoldable pub fill : Text → PublishRequest → PublishRequest
fill header req =
    let stream = if is_empty req.stream then codes "default" else req.stream in
    record {
      stream = stream;
      subject = if is_empty req.subject then codes "events." ++ stream else req.subject;
      event_type = if is_empty req.event_type then codes "event" else req.event_type;
      schema_version = if leb_ℤ req.schema_version (pos 0) then pos 1 else req.schema_version;
      idempotency_key = if is_empty req.idempotency_key then header else req.idempotency_key;
      payload = if is_empty req.payload then codes "{}" else req.payload;
    }

abbrev has : List Text → Text → Bool
has [] s = false
has (t ∷ ts) s = text_eq t s || has ts s

abbrev known_in : List Text → Text → Bool
known_in [] event_type = true
known_in (t ∷ ts) event_type = has (t ∷ ts) event_type

-- The registry is trimmed, as `New` keeps it; an empty one admits every type.
unfoldable pub is_known_event_type : Config → Text → Bool
is_known_event_type cfg event_type =
    not (is_empty event_type)
    && known_in (select non_empty (map trim_space cfg.event_type_registry)) event_type

abbrev in_range : Option VersionRange → ℤ → Bool
in_range none v = true
in_range (some range) v = not (ltb_ℤ v range.min || ltb_ℤ range.max v)

abbrev has_all : List Text → List Text → Bool
has_all [] fields = true
has_all (f ∷ required) fields = has fields f && has_all required fields

abbrev has_required : Option (List Text) → List Text → Bool
has_required none fields = true
has_required (some required) fields = has_all required fields

-- Whether the request passes; the texts of the errors are left out.
unfoldable pub validate_publish_request : Config → PublishRequest → Payload → Bool
unfolding is_known_event_type
validate_publish_request cfg req malformed = false
validate_publish_request cfg req no_object = false
validate_publish_request cfg req (object fields) =
    not (cfg.reject_unknown_event_types && not (is_known_event_type cfg req.event_type))
    && in_range (lookup req.event_type cfg.schema_version_rules) req.schema_version
    && has_required (lookup req.event_type cfg.schema_required_fields) fields

pub data Response : Type 0 where
  -- An error with its status.
  refused : ℕ → Response
  -- 202: the event's id, whether it is quarantined, and the failures so far.
  queued : Text → Bool → ℕ → Response
  -- 201, or 200 for a duplicate: the event.
  stored : ℕ → EventRecord → Response

unfoldable pub event_of : ℕ → PublishRequest → EventRecord
event_of now req = record {
  id = [];
  idempotency_key = req.idempotency_key;
  stream = req.stream;
  subject = req.subject;
  event_type = req.event_type;
  payload = req.payload;
  occurred_at = now;
  retry_count = 0;
  last_error = [];
  quarantined_at = 0;
}

module _ (rt : Runtime) where
  open rt use {World}

  abbrev acknowledge : AppendResult → Response
  acknowledge a = stored (if a.duplicate then 200 else 201) a.event

  -- From the result of the append on.
  unfoldable pub publish_appended :
      Config → EventBus World → EventStore World → AppendResult → State rt → Response × State rt
  publish_appended cfg bus store a s =
      let r =
        on_bus rt (publish_with_retry rt cfg (some bus) a.event.subject a.event.payload a.event.id)
          s in
      if a.published then (acknowledge a, s) else elim r.0 [
        | err e ↦
            let failed = record_failure rt cfg store.advanced a.event.id e r.1.1.1 in
            (queued a.event.id failed.0.0 failed.0.1, (r.1.0, (r.1.1.0, failed.1)))
        | ok broker_id ↦
            let marked =
              on_store rt (store_mark_outbox_published rt (some store) a.event.id broker_id) r.1 in
            elim marked.0 [ err e ↦ (refused 500, marked.1) | ok _ ↦ (acknowledge a, marked.1) ]
      ]

  unfoldable pub append_and_publish :
      Config → EventBus World → EventStore World → EventRecord → State rt → Response × State rt
  unfolding publish_appended
  append_and_publish cfg bus store event s =
      let r = on_store rt (store_append_event_exactly_once rt (some store) event) s in
      elim r.0 [ err e ↦ (refused 500, r.1) | ok a ↦ publish_appended cfg bus store a r.1 ]

-- What the handler changes.
pub record Server (rt : Runtime) (rate : Rate) : Type 0 where
  pub lane : Lane
  pub limiter : SubjectRateLimiter rate
  pub state : State rt

-- `decode` is json.Unmarshal of a payload.
module _ (rt : Runtime) (rate : Rate) (decode : Text → Payload) where
  open rt use {World, now}

  -- Whether writes are refused: a leader is required and another node has the lead.
  abbrev pub follows : Config → Option Bool → Bool
  follows cfg none = false
  follows cfg (some leads) = cfg.require_leader_for_writes && not leads

  -- From the filled request on.
  unfoldable pub admit :
      Config
      → EventBus World
      → EventStore World
      → PublishRequest
      → Server rt rate
      → Response × Server rt rate
  unfolding append_and_publish
  admit cfg bus store req s =
      let asked = SubjectLimiter.allow rate s.limiter req.subject (now s.state.1.1) in
      let r = append_and_publish rt cfg bus store (event_of (now s.state.1.1) req) s.state in
      if validate_publish_request cfg req (decode req.payload)
      then if asked.1
        then (r.0, record s { limiter = asked.0; state = r.1 })
        else (refused 429, record s { limiter = asked.0 })
      else (refused 400, s)

  -- The body of the handler, between the guard's ends; `leads` is what the coordinator says, if there
  -- is one.
  unfoldable pub answer :
      Config
      → Option (EventBus World)
      → Option (EventStore World)
      → Option Bool
      → Text
      → Option PublishRequest
      → Server rt rate
      → Response × Server rt rate
  unfolding admit
  answer cfg (some bus) (some store) leads header body s =
      if follows cfg leads then (refused 503, s) else elim body [
        | none ↦ (refused 400, s)
        | some req ↦ admit cfg bus store (fill header req) s
      ]
  answer cfg _ _ leads header body s = (refused 500, s)

  unfoldable pub handle_publish_event :
      Config
      → Option (EventBus World)
      → Option (EventStore World)
      → Option Bool
      → Text
      → Option PublishRequest
      → Server rt rate
      → Response × Server rt rate
  unfolding answer
  handle_publish_event cfg bus store leads header body s =
      let lane = acquire_guard s.lane in
      let r = answer cfg bus store leads header body (record s { lane = lane.1 }) in
      if lane.0 then (r.0, record r.1 { lane = release_guard r.1.lane }) else (refused 503, s)
