-- ===== src/Contracts.antt =====
-- The records and the errors that the components exchange (internal/modules/contracts.go).
use shiro_distributed_system.Common.{ℕ, Bool, Text}

pub record EventRecord : Type 0 where
  pub id : Text
  pub idempotency_key : Text
  pub stream : Text
  pub subject : Text
  pub event_type : Text
  pub payload : Text
  -- Nanoseconds since the zero `time.Time`.
  pub occurred_at : ℕ
  pub retry_count : ℕ
  pub last_error : Text
  pub quarantined_at : ℕ

pub record AppendResult : Type 0 where
  pub event : EventRecord
  pub duplicate : Bool
  pub published : Bool

pub record BusMessage : Type 0 where
  pub subject : Text
  pub message_id : Text
  -- `Data` in the source.
  pub bytes : Text
  pub received_at : ℕ

-- The errors that the program makes or tells apart; `failed` is any other, by its text.
pub data Error : Type 0 where
  session_not_available : Error
  not_found : Error
  invalid_uuid : Error
  event_bus_not_configured : Error
  event_store_not_configured : Error
  circuit_open : Error
  context_done : Error
  failed : Text → Error
