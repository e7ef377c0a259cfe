-- ===== src/Cass/Calls/Kept.antt =====
-- What every statement of the calls keeps (internal/modules/cassstore/module.go).
use shiro_distributed_system.Common.{ℕ, Bool, List, [], ◌∷◌, Text, nat_key, All}
use shiro_distributed_system.Contracts.{EventRecord}
use shiro_distributed_system.Cass.Tables.{Tables, DeadRow, IdempotencyRow}
use shiro_distributed_system.Cass.Append.{claim_key, insert_created, insert_event}
use shiro_distributed_system.Cass.Outbox.{
  publish_batch, claim_lease, update_failed, insert_dead_letter,
}
use shiro_distributed_system.Cass.DeadLetters.{replay_batch}
use shiro_distributed_system.Cass.Inbox.{claim_message}
use shiro_distributed_system.Cass.Calls.{Call, appends}

-- The events that a call may write, any but those that `Fresh` excludes, and the times at which it may
-- index a key.
pub record IsKept (I : Tables → Type 0) (Fresh Timely : ℕ → Type 0) : Type 0 where
  pub claim_key_keeps :
      (k : Text × Text) (row : IdempotencyRow) (t : Tables)
      → Fresh row.event_id
      → I t
      → I (claim_key k row t).1
  pub insert_created_keeps :
      (k : Text × Text) (at id : ℕ) (t : Tables) → Timely at → I t → I (insert_created k at id t)
  pub insert_event_keeps :
      (id : ℕ) (e : EventRecord) (t : Tables) → Fresh id → I t → I (insert_event id e t)
  pub publish_batch_keeps :
      (id at now : ℕ) (b : Text) (t : Tables) → I t → I (publish_batch id at now b t)
  pub claim_lease_keeps :
      (id : ℕ) (owner : Text) (till now : ℕ) (t : Tables)
      → I t
      → I (claim_lease id owner till now t).1
  pub update_failed_keeps :
      (id n next : ℕ) (e : Text) (q : Bool) (now first : ℕ) (t : Tables)
      → I t
      → I (update_failed id n next e q now first t)
  pub insert_dead_letter_keeps :
      (id : ℕ) (row : DeadRow) (t : Tables) → I t → I (insert_dead_letter id row t)
  pub replay_batch_keeps :
      (id : ℕ) (d : DeadRow) (at now : ℕ) (t : Tables) → I t → I (replay_batch id d at now t)
  pub claim_message_keeps :
      (k : Text × Text) (now : ℕ) (t : Tables) → I t → I (claim_message k now t).1

-- The appends of a sequence write only events that are fresh, at times that are allowed.
abbrev pub IsFresh : (ℕ → Type 0) → (ℕ → Type 0) → Call → Type 0
IsFresh Fresh Timely (appends m clock id event) = Fresh id × Timely (clock 2)
IsFresh Fresh Timely _ = Unit {0}

-- Any event may be written, at any time.
abbrev pub Any : ℕ → Type 0
Any _ = Unit {0}

pub All-IsFresh : (calls : List Call) → All (IsFresh Any Any) calls
All-IsFresh [] = tt
All-IsFresh (appends m clock id event ∷ calls) = ((tt, tt), All-IsFresh calls)
All-IsFresh (_ ∷ calls) = (tt, All-IsFresh calls)
