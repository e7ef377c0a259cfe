-- ===== src/System.antt =====
-- The store of internal/modules/cassstore/module.go as the `EventStore` of internal/core/app.go: the
-- modules that cmd/controlplane/main.go hands to the application, on one world.
pub mod Keeps
pub mod Once
pub mod Durable
pub mod Delivered
pub mod Wired
use shiro_distributed_system.Common.{ℕ, Bool, Option, none, some, Text, ℤ, pos_part, List, Result}
use shiro_distributed_system.Contracts.{Error, EventRecord, AppendResult}
use shiro_distributed_system.Monad.{M}
use shiro_distributed_system.Config.{Config}
use shiro_distributed_system.Limiter.{Rate}
use shiro_distributed_system.Interfaces.{Runtime, EventBus, EventStore, AdvancedEventStore}
use shiro_distributed_system.Handler.{
  PublishRequest, Payload, Response, Server, handle_publish_event,
}
use shiro_distributed_system.Cass.Driver.{Cassandra, Module}
use shiro_distributed_system.Cass.Append.{append_event_exactly_once}
use shiro_distributed_system.Cass.Outbox.{
  FailureReport, mark_outbox_published, pending_outbox_events, claim_outbox_lease,
  record_outbox_failure,
}
use shiro_distributed_system.Cass.DeadLetters.{list_dead_letters, replay_dead_letter}
use shiro_distributed_system.Cass.Inbox.{claim_inbox_message, recent_events}
use shiro_distributed_system.Cass.Cleanup.{CleanupReport, cleanup_expired}

-- All but the cluster: the successive readings of `time.Now` from here on, the next
-- `gocql.TimeUUID`, the next `rand.Intn`, and what a call of the store makes of it.
pub record Host : Type 1 where
  pub Rest : Type 0
  pub clock : Rest → ℕ → ℕ
  pub time_uuid : Rest → ℕ
  pub intn : Rest → ℕ → ℕ
  pub tick : Rest → Rest

abbrev reported : FailureReport → Bool × ℕ × Option Error
reported r = (r.quarantined, r.retry_count, r.error)

abbrev cleaned : CleanupReport → ℕ × ℕ × Option Error
cleaned r = (r.keys_deleted, r.letters_deleted, r.error)

module _ (c : Cassandra) (host : Host) (m : Module) where
  open c use {Db}
  open host use {Rest, clock, time_uuid, intn, tick}

  abbrev pub World : Type 0
  World = Db × Rest

  abbrev pub on_db : {A : Type 0} → (Rest → Db → A × Db) → World → A × World
  on_db call w = let r = call w.1 w.0 in (r.0, (r.1, tick w.1))

  -- The durations and the limits of age that come here are not negative unless an integer has
  -- overflowed, and are taken as 0 then.
  unfoldable pub cass_advanced : AdvancedEventStore World
  cass_advanced = record {
    claim_outbox_lease =
        λ id owner d. on_db (λ e. claim_outbox_lease c m (clock e 0) id owner (pos_part d));
    record_outbox_failure = λ id x base most percent after w.
        let r =
          on_db (λ e. record_outbox_failure c m (intn e) (clock e 0) id x base most percent after)
            w in
        (reported r.0, r.1);
    list_dead_letters = λ limit. on_db (λ e. list_dead_letters c m limit);
    replay_dead_letter = λ id. on_db (λ e. replay_dead_letter c m (clock e 0) id);
    cleanup_expired = λ keys letters limit w.
        let r = on_db (λ e. cleanup_expired c m (pos_part keys) (pos_part letters) limit) w in
        (cleaned r.0, r.1);
  }

  unfoldable pub cass_store : EventStore World
  unfolding cass_advanced
  cass_store = record {
    append_event_exactly_once =
        λ event. on_db (λ e. append_event_exactly_once c m (clock e) (time_uuid e) event);
    mark_outbox_published =
        λ id broker_id. on_db (λ e. mark_outbox_published c m (clock e 0) id broker_id);
    pending_outbox_events = λ limit. on_db (λ e. pending_outbox_events c m (clock e) limit);
    claim_inbox_message =
        λ consumer id. on_db (λ e. claim_inbox_message c m (clock e 0) consumer id);
    recent_events = λ stream limit. on_db (λ e. recent_events c m stream limit);
    advanced = some cass_advanced;
  }

-- A process of the service: what `New` is given, and what is outside of it.
pub record Node (c : Cassandra) : Type 1 where
  pub config : Config
  pub host : Host
  pub session : Module
  -- time.Now, the timers and the texts of errors, as in `Runtime`.
  pub now : c.Db × host.Rest → ℕ
  pub wait : ℤ → c.Db × host.Rest → Bool × (c.Db × host.Rest)
  pub error_text : Error → Text
  pub bus : EventBus (c.Db × host.Rest)
  pub rate : Rate
  pub decode : Text → Payload

module _ (c : Cassandra) (n : Node c) where
  abbrev pub runtime : Runtime
  runtime = record {
    World = World c n.host n.session;
    now = n.now;
    wait = n.wait;
    error_text = n.error_text;
  }

  -- POST /events at this node.
  abbrev pub post_event :
      Option Bool → Text → PublishRequest → Server runtime n.rate → Response × Server runtime n.rate
  post_event leads header req =
      handle_publish_event runtime n.rate n.decode n.config (some n.bus)
        (some (cass_store c n.host n.session)) leads header (some req)
