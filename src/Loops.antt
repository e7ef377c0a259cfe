-- ===== src/Loops.antt =====
-- The loops `runOutboxRelay` and `runCleanupLoop` of internal/core/app.go, turn by turn, a batch
-- of the relay event by event. The interval
-- of a ticker is when a turn comes, and is not modelled.
pub mod Batches
pub mod Paused
pub mod Retention
use shiro_distributed_system.Common.{
  ℕ, Bool, true, false, not, ◌&&◌, Option, none, some, List, [], ◌∷◌, ℤ, pos, ◌+ℤ◌, ◌-ℤ◌, ◌*ℤ◌,
  wrap64, ok, err, if◌then◌else◌,
}
use shiro_distributed_system.GoMax.{max}
use shiro_distributed_system.Config.{Config}
use shiro_distributed_system.Interfaces.{Runtime, EventBus, EventStore}
use shiro_distributed_system.Contracts.{EventRecord}
use shiro_distributed_system.Publish.{store_pending_outbox_events}
use shiro_distributed_system.Relay.{State, on_store, relay_event}
use shiro_distributed_system.Admin.{HttpRequest, handle_outbox_relay_admin, advanced_of}

-- The time before which things are too old, after these hours.
unfoldable pub before_hours : ℤ → ℕ → ℤ
before_hours hours now = pos now +ℤ wrap64 ((pos 0 -ℤ max (pos 1) hours) *ℤ pos 3_600_000_000_000)

module _ (rt : Runtime) where
  open rt use {World, now}

  -- What happens to the relay: its ticker fires, the batch that is running takes its next event, an
  -- administrator asks, the rest of the world moves on, or the context is done.
  pub data Turn : Type 0 where
    ticks relays : Turn
    asks : HttpRequest → Turn
    passes : (State rt → State rt) → Turn
    ends : Turn

  pub record Relay : Type 0 where
    pub paused : Bool
    -- The context is done: the loop takes no further tick.
    pub ended : Bool
    -- The events that the running batch has left; the loop waits for a tick if there are none.
    pub batch : List EventRecord
    pub state : State rt

  -- Whether another node leads, if there is a coordinator.
  abbrev pub other_leads : Option (World → Bool) → World → Bool
  other_leads none w = false
  other_leads (some is_leader) w = not (is_leader w)

  abbrev pub is_running : List EventRecord → Bool
  is_running [] = false
  is_running (_ ∷ _) = true

  -- The beginning of `relayOutboxBatch`: the events that it goes through.
  unfoldable pub start_batch :
      Config
      → Option (EventBus World)
      → Option (EventStore World)
      → State rt
      → List EventRecord × State rt
  start_batch cfg (some bus) (some store) s =
      let pending =
        on_store rt
          (store_pending_outbox_events rt (some store) (max (pos 1) cfg.outbox_relay_batch_size))
          s in
      elim pending.0 [ ok events ↦ (events, pending.1) | err e ↦ ([], pending.1) ]
  start_batch cfg _ _ s = ([], s)

  -- The next event of the batch.
  unfoldable pub next_event :
      Config → Option (EventBus World) → Option (EventStore World) → Relay → Relay
  next_event cfg (some bus) (some store) l = elim l.batch [
    | [] ↦ l
    | evt ∷ batch ↦ record l { batch = batch; state = relay_event rt cfg bus store evt l.state }
  ]
  next_event cfg _ _ l = l

  -- A turn of `runOutboxRelay`; `leads` is `IsLeader`. The loop looks at the pause and at the leader
  -- when a tick comes, and takes no tick while a batch is running.
  unfoldable pub relay_turn :
      Config
      → Option (EventBus World)
      → Option (EventStore World)
      → Option (World → Bool)
      → Turn
      → Relay
      → Relay
  unfolding start_batch next_event
  relay_turn cfg bus store leads ticks l =
      if is_running l.batch
      then l
      else if l.ended
      then l
      else if l.paused
      then l
      else if other_leads leads l.state.1.1
      then l
      else (let r = start_batch cfg bus store l.state in record l { batch = r.0; state = r.1 })
  relay_turn cfg bus store leads relays l = next_event cfg bus store l
  relay_turn cfg bus store leads (asks r) l = record l {
    paused = (handle_outbox_relay_admin r l.paused).1;
  }
  relay_turn cfg bus store leads (passes move) l = record l { state = move l.state }
  relay_turn cfg bus store leads ends l = record l { ended = true }

  unfoldable pub run_outbox_relay :
      Config
      → Option (EventBus World)
      → Option (EventStore World)
      → Option (World → Bool)
      → List Turn
      → Relay
      → Relay
  unfolding relay_turn
  run_outbox_relay cfg bus store leads [] l = l
  run_outbox_relay cfg bus store leads (t ∷ turns) l =
      run_outbox_relay cfg bus store leads turns (relay_turn cfg bus store leads t l)

  -- A turn of `runCleanupLoop`; without an advanced store there is no loop. What the cleanup reports is
  -- dropped.
  unfoldable pub cleanup_turn : Config → Option (EventStore World) → World → World
  unfolding before_hours
  cleanup_turn cfg store w = elim (advanced_of store) [
    | none ↦ w
    | some adv ↦
        (adv.cleanup_expired (before_hours cfg.idempotency_ttl_hours (now w))
          (before_hours cfg.dead_letter_ttl_hours (now w)) (max (pos 1) cfg.cleanup_batch_size) w).1
  ]
