-- ===== src/Nats.antt =====
-- internal/modules/natsbus/module.go. The client of NATS is a parameter; the state is whether the
-- module keeps a connection, and the client's world. Spans are left out.
pub mod Ids
use shiro_distributed_system.Common.{
  ℕ, Bool, true, false, not, Option, none, some, List, [], ◌∷◌, ◌++◌, Text, codes, is_empty, Result,
  ok, err, if◌then◌else◌,
}
use shiro_distributed_system.Common.Decimal.{decimal}
use shiro_distributed_system.Contracts.{Error, BusMessage, failed, context_done}
use shiro_distributed_system.Monad.{M}
use shiro_distributed_system.Interfaces.{EventBus}
use shiro_distributed_system.Tls.{TlsConfig, TlsOptions, Files, build_tls_config}

-- What `New` is given.
pub record NatsSettings : Type 0 where
  pub url : Text
  pub stream_name : Text
  pub user : Text
  pub password : Text
  pub token : Text
  pub tls : TlsOptions

pub data Credentials : Type 0 where
  nobody : Credentials
  by_token : Text → Credentials
  by_user : Text → Text → Credentials

-- The options of a connection that depend on the settings.
pub record ConnectOptions : Type 0 where
  pub credentials : Credentials
  pub secure : Option TlsConfig

-- A message; the header `Nats-Msg-Id` is empty if it is not set.
pub record NatsMsg : Type 0 where
  pub subject : Text
  pub payload : Text
  pub msg_id : Text

pub record PubAck : Type 0 where
  pub stream : Text
  pub sequence : ℕ

-- The stream and the two sequence numbers of a message that came through a stream.
pub record Metadata : Type 0 where
  pub stream : Text
  pub stream_sequence : ℕ
  pub consumer_sequence : ℕ

pub record Client (World : Type 0) : Type 0 where
  pub connect : Text → ConnectOptions → M World (Unit {0})
  pub jet_stream : M World (Unit {0})
  pub stream_info : Text → M World (Unit {0})
  pub add_stream : Text → List Text → M World (Unit {0})
  pub close : World → World
  pub drain : M World (Unit {0})
  pub is_connected : World → Bool
  pub is_done : World → Bool
  pub publish_msg : NatsMsg → M World PubAck
  pub subscribe : Text → M World (Unit {0})

unfoldable pub credentials_of : NatsSettings → Credentials
credentials_of m =
    if not (is_empty m.token)
    then by_token m.token
    else if not (is_empty m.user)
    then by_user m.user m.password
    else nobody

-- `%s:%d`
unfoldable pub broker_id : PubAck → Text
broker_id ack = ack.stream ++ b':' ∷ decimal ack.sequence

-- What the handler of a subscription gets of a message: its id, or one made from its place.
unfoldable pub bus_message : NatsMsg → Option Metadata → ℕ → BusMessage
bus_message msg meta now = record {
  subject = msg.subject;
  message_id =
      if is_empty msg.msg_id
      then (elim meta [
        | none ↦ []
        | some at ↦
            at.stream ++ b':' ∷ (decimal at.stream_sequence ++ b':' ∷ decimal at.consumer_sequence)
      ])
      else msg.msg_id;
  bytes = msg.payload;
  received_at = now;
}

module _ {World : Type 0} (client : Client World) (m : NatsSettings) where
  -- Whether `nc` and `js` are set.
  abbrev pub NatsState : Type 0
  NatsState = Bool × World

  -- The error of a call after which the connection is closed.
  abbrev closing : Error → World → Result Error (Unit {0}) × NatsState
  closing e w = (err e, (false, client.close w))

  -- The stream is added if it cannot be found.
  unfoldable pub ensure_stream : World → Result Error (Unit {0}) × World
  ensure_stream w =
      let found = client.stream_info m.stream_name w in
      let added = client.add_stream m.stream_name (codes "events.>" ∷ []) found.1 in
      elim found.0 [ ok _ ↦ found | err e ↦ added ]

  unfoldable pub connect_nats : Option TlsConfig → World → Result Error (Unit {0}) × NatsState
  unfolding ensure_stream credentials_of
  connect_nats secure w =
      let dialled =
        client.connect m.url (record { credentials = credentials_of m; secure = secure }) w in
      let js = client.jet_stream dialled.1 in
      let ensured = ensure_stream js.1 in
      elim dialled.0 [
        | err e ↦ (err e, (false, dialled.1))
        | ok _ ↦ elim js.0 [
          | err e ↦ closing e js.1
          | ok _ ↦ elim ensured.0 [
            | err e ↦ closing e ensured.1
            | ok _ ↦ (ok tt, (true, ensured.1))
          ]
        ]
      ]

  -- A failed start leaves the module as it was.
  unfoldable pub start_nats : Files → NatsState → Result Error (Unit {0}) × NatsState
  unfolding connect_nats
  start_nats files (on, w) = elim (build_tls_config files m.tls) [
    | err e ↦ (err e, (on, w))
    | ok secure ↦
        let r = connect_nats secure w in elim r.0 [ ok _ ↦ r | err e ↦ (err e, (on, r.1.1)) ]
  ]

  unfoldable pub ready_nats : NatsState → Result Error (Unit {0})
  ready_nats (on, w) =
      if on
      then if client.is_connected w then ok tt else err (failed (codes "nats not connected"))
      else err (failed (codes "nats not connected"))

  unfoldable pub stop_nats : NatsState → Result Error (Unit {0}) × NatsState
  stop_nats (on, w) =
      let drained = client.drain w in
      if on
      then (elim drained.0 [ ok _ ↦ (ok tt, (false, drained.1)) | err e ↦ closing e drained.1 ])
      else (ok tt, (false, w))

  abbrev with_broker_id : Result Error PubAck → Result Error Text
  with_broker_id (ok ack) = ok (broker_id ack)
  with_broker_id (err e) = err e

  -- The text that is put before an error is left out.
  unfoldable pub publish_nats : Text → Text → Text → M NatsState Text
  unfolding broker_id
  publish_nats subject payload message_id (on, w) =
      let sent =
        client.publish_msg (record { subject = subject; payload = payload; msg_id = message_id })
          w in
      if on
      then if client.is_done w
        then (err context_done, (on, w))
        else (with_broker_id sent.0, (on, sent.1))
      else (err (failed (codes "jetstream not ready")), (on, w))

  unfoldable pub subscribe_nats : Text → M NatsState (Unit {0})
  subscribe_nats subject (on, w) =
      let r = client.subscribe subject w in
      if on then (r.0, (on, r.1)) else (err (failed (codes "nats not connected")), (on, w))

  -- The module as the application's bus.
  unfoldable pub nats_bus : EventBus NatsState
  unfolding publish_nats subscribe_nats
  nats_bus = record { publish = publish_nats; subscribe = subscribe_nats }
