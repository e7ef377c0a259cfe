-- ===== src/Cass/Append.antt =====
-- `AppendEventExactlyOnce` of internal/modules/cassstore/module.go.
pub mod Keys
pub mod Once
pub mod Durable
pub mod Orphans
use shiro_distributed_system.Common.{
  ℕ, ◌≡◌, Bool, true, false, Option, none, some, Text, nat_eq, is_empty, if◌then◌else◌, codes,
  nat_key, [],
}
use shiro_distributed_system.Common.Assoc
use shiro_distributed_system.Common.Assoc.{lookup}
use shiro_distributed_system.Contracts.{EventRecord, AppendResult, not_found}
use shiro_distributed_system.Monad.{return, or_fail, ◌>>=◌, ◌>>◌}
use shiro_distributed_system.Cass.Tables.{
  Tables, Message, EventRow, IdempotencyRow, OutboxRow, RetryRow, PublishState, pending, published,
  unix_epoch, outbox_row_at, retry_row_at, state_eq, text_pair_key, created_key, stream_key,
  outbox_key,
}
use shiro_distributed_system.Cass.Driver.{Cassandra, Module, Store, scan, write, with_session}

abbrev pub message_of : EventRecord → Message
message_of event = record {
  stream = event.stream;
  subject = event.subject;
  event_type = event.event_type;
  payload = event.payload;
}

-- INSERT INTO idempotency_keys ... IF NOT EXISTS: the event of the row that was there, if any.
unfoldable pub claim_key : Text × Text → IdempotencyRow → Tables → Option ℕ × Tables
claim_key key row t = elim (lookup key t.idempotency_keys) [
  | none ↦ (none, record t { idempotency_keys = Assoc.insert key row t.idempotency_keys })
  | some old ↦ (some old.event_id, t)
]

-- INSERT INTO idempotency_by_created
unfoldable pub insert_created : Text × Text → ℕ → ℕ → Tables → Tables
insert_created key created id t = record t {
  idempotency_by_created = Assoc.insert (created, key) id t.idempotency_by_created;
}

-- The logged batch that writes an event and its outbox rows.
unfoldable pub insert_event : ℕ → EventRecord → Tables → Tables
insert_event id event t =
    let message : Message = message_of event in
    let at = event.occurred_at in
    record t {
      events_by_stream =
          Assoc.insert (record { stream = event.stream; occurred_at = at; event_id = id }) message
            t.events_by_stream;
      events_by_id =
          Assoc.insert id (record { message = message; occurred_at = at }) t.events_by_id;
      outbox_events =
          Assoc.insert id
            (record (outbox_row_at id t) {
              message = message;
              occurred_at = at;
              publish_state = pending;
            })
            t.outbox_events;
      outbox_by_state = Assoc.insert (pending, (at, id)) message t.outbox_by_state;
      outbox_retry_state =
          Assoc.insert id
            (record (retry_row_at id t) {
              retry_count = 0;
              last_error = [];
              lease_owner = [];
              quarantined = false;
              next_attempt_at = at;
              lease_until = unix_epoch;
            })
            t.outbox_retry_state;
    }

-- The stream and the time that an event gets if it has none.
unfoldable pub with_defaults : ℕ → EventRecord → EventRecord
with_defaults now event = record event {
  stream = if is_empty event.stream then codes "default" else event.stream;
  occurred_at = if nat_eq event.occurred_at 0 then now else event.occurred_at;
}

module _ (c : Cassandra) where
  open c use {uuid_string, sha256_hex, execute}

  -- SELECT publish_state FROM outbox_events
  unfoldable pub is_outbox_published : ℕ → Store c Bool
  is_outbox_published id = scan c OutboxRow (λ t. lookup id t.outbox_events) >>= λ row.
      return (state_eq row.publish_state published)

  -- The event that the key stands for already.
  unfoldable pub existing_event : Text → ℕ → Store c AppendResult
  unfolding is_outbox_published
  existing_event key id = do
    row ← scan c EventRow (λ t. lookup id t.events_by_id)
    done ← is_outbox_published id
    return (record {
      event = record {
        id = uuid_string id;
        idempotency_key = key;
        stream = row.message.stream;
        subject = row.message.subject;
        event_type = row.message.event_type;
        payload = row.message.payload;
        occurred_at = row.occurred_at;
        retry_count = 0;
        last_error = [];
        quarantined_at = 0;
      };
      duplicate = true;
      published = done;
    })

  unfoldable pub append_new : ℕ → EventRecord → Store c AppendResult
  append_new id event = do
    write c (insert_event id event)
    return (record {
      event = record event { id = uuid_string id };
      duplicate = false;
      published = false;
    })

  -- After the claim of the key: the event that has it, or a new one.
  unfoldable pub append_claimed : ℕ → ℕ → EventRecord → Option ℕ → Store c AppendResult
  unfolding existing_event append_new
  append_claimed id created event (some old) = existing_event event.idempotency_key old
  append_claimed id created event none = do
    write c (insert_created (event.stream, event.idempotency_key) created id)
    append_new id event

  -- `clock` gives the successive readings of `time.Now`, `id` the new time-based UUID.
  unfoldable pub append_keyed : (ℕ → ℕ) → ℕ → EventRecord → Store c AppendResult
  unfolding append_claimed append_new
  append_keyed clock id event = if is_empty event.idempotency_key then append_new id event else (do
    claimed ← execute (Option ℕ) (
        claim_key (event.stream, event.idempotency_key)
          (record { event_id = id; payload_hash = sha256_hex event.payload; created_at = clock 1 }))
    append_claimed id (clock 2) event claimed)

  unfoldable pub append_event_exactly_once :
      Module → (ℕ → ℕ) → ℕ → EventRecord → Store c AppendResult
  unfolding append_keyed
  append_event_exactly_once m clock id event =
      with_session c m (append_keyed clock id (with_defaults (clock 0) event))
