-- ===== src/Interfaces.antt =====
-- The interfaces of internal/modules/contracts.go that the application calls, over the state of all
-- that is outside it. The context's end and the timers are the parameter `Runtime`.
use shiro_distributed_system.Common.{ℕ, Bool, List, Text, ℤ, Option}
use shiro_distributed_system.Contracts.{EventRecord, AppendResult, Error}
use shiro_distributed_system.Monad.{M}

pub record Runtime : Type 1 where
  pub World : Type 0
  -- time.Now
  pub now : World → ℕ
  -- Waits for a duration: true if the timer fires before the context is done.
  pub wait : ℤ → World → Bool × World
  -- The text of an error.
  pub error_text : Error → Text

pub record EventBus (World : Type 0) : Type 0 where
  -- The subject, the payload and the message's id; the broker's id.
  pub publish : Text → Text → Text → M World Text
  -- The subject; the messages come later, as steps of the world.
  pub subscribe : Text → M World (Unit {0})

-- What `AdvancedEventStore` adds.
pub record AdvancedEventStore (World : Type 0) : Type 0 where
  -- The event, the owner and the duration.
  pub claim_outbox_lease : Text → Text → ℤ → M World Bool
  -- The event, the error, the base and the maximum of the backoff, the jitter and the limit.
  pub record_outbox_failure :
      Text → Text → ℤ → ℤ → ℤ → ℤ → World → (Bool × ℕ × Option Error) × World
  pub list_dead_letters : ℤ → M World (List EventRecord)
  pub replay_dead_letter : Text → M World (Unit {0})
  -- The two limits of age, and how many of each at most.
  pub cleanup_expired : ℤ → ℤ → ℤ → World → (ℕ × ℕ × Option Error) × World

pub record EventStore (World : Type 0) : Type 0 where
  pub append_event_exactly_once : EventRecord → M World AppendResult
  pub mark_outbox_published : Text → Text → M World (Unit {0})
  pub pending_outbox_events : ℤ → M World (List EventRecord)
  pub claim_inbox_message : Text → Text → M World Bool
  pub recent_events : Text → ℤ → M World (List EventRecord)
  -- The store as an `AdvancedEventStore`, if it is one.
  pub advanced : Option (AdvancedEventStore World)
