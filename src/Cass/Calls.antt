-- ===== src/Cass/Calls.antt =====
-- Sequences of calls of the event store (internal/modules/cassstore/module.go), by any clients in
-- any order, each with the outcome that the session gives it. `CleanupExpired`, which forgets keys
-- and dead letters that have aged, is added in Cleaned.
pub mod Appends
pub mod Kept
pub mod Cleaned
pub mod Preserve
pub mod Step
use shiro_distributed_system.Common.{ℕ, List, [], ◌∷◌, Text, ℤ}
use shiro_distributed_system.Contracts.{EventRecord}
use shiro_distributed_system.Cass.Driver.{Cassandra, Module}
use shiro_distributed_system.Cass.Append.{append_event_exactly_once}
use shiro_distributed_system.Cass.Outbox.{
  mark_outbox_published, pending_outbox_events, claim_outbox_lease, record_outbox_failure,
}
use shiro_distributed_system.Cass.DeadLetters.{replay_dead_letter}
use shiro_distributed_system.Cass.Inbox.{claim_inbox_message}

pub data Call : Type 0 where
  appends : Module → (ℕ → ℕ) → ℕ → EventRecord → Call
  marks : Module → ℕ → Text → Text → Call
  polls : Module → (ℕ → ℕ) → ℤ → Call
  leases : Module → ℕ → Text → Text → ℕ → Call
  fails : Module → (ℕ → ℕ) → ℕ → Text → Text → ℤ → ℤ → ℤ → ℤ → Call
  replays : Module → ℕ → Text → Call
  consumes : Module → ℕ → Text → Text → Call

module _ (c : Cassandra) where
  unfoldable pub step : Call → c.Db → c.Db
  step (appends m clock id event) db = (append_event_exactly_once c m clock id event db).1
  step (marks m now id broker_id) db = (mark_outbox_published c m now id broker_id db).1
  step (polls m clock limit) db = (pending_outbox_events c m clock limit db).1
  step (leases m now id owner duration) db = (claim_outbox_lease c m now id owner duration db).1
  step (fails m intn now id e base most percent after) db =
      (record_outbox_failure c m intn now id e base most percent after db).1
  step (replays m now id) db = (replay_dead_letter c m now id db).1
  step (consumes m now consumer message_id) db =
      (claim_inbox_message c m now consumer message_id db).1

  unfoldable pub run : List Call → c.Db → c.Db
  run [] db = db
  run (call ∷ calls) db = run calls (step call db)
