-- ===== src/Cass/DeadLetters.antt =====
-- The dead letters of internal/modules/cassstore/module.go: listing and replay.
pub mod Replay
use shiro_distributed_system.Common.{
  ℕ, Bool, true, false, Option, none, some, List, map, Text, ℤ, pos, pos_part, leb_ℤ, nat_key, take,
  if◌then◌else◌, Result, ok, err, [],
}
use shiro_distributed_system.Common.Assoc.{Map, lookup, insert, delete}
use shiro_distributed_system.Contracts.{Error, EventRecord}
use shiro_distributed_system.Monad.{return, ◌>>=◌, ◌>>◌}
use shiro_distributed_system.Cass.Tables.{
  Tables, Message, OutboxRow, DeadRow, PublishState, pending, unix_epoch, outbox_row_at,
  retry_row_at, outbox_key, time_key,
}
use shiro_distributed_system.Cass.Driver.{
  Cassandra, Module, Store, scan, write, with_session, to_uuid,
}

-- The limit of `ListDeadLetters`: it has a default and no maximum.
unfoldable pub dead_letter_limit : ℤ → ℕ
dead_letter_limit limit = if leb_ℤ limit (pos 0) then 50 else pos_part limit

-- The batch of `ReplayDeadLetter`.
unfoldable pub replay_batch : ℕ → DeadRow → ℕ → ℕ → Tables → Tables
replay_batch id dead occurred_at now t = record t {
  outbox_events =
      insert id
        (record (outbox_row_at id t) {
          message = dead.message;
          occurred_at = occurred_at;
          publish_state = pending;
        })
        t.outbox_events;
  outbox_by_state = insert (pending, (occurred_at, id)) dead.message t.outbox_by_state;
  outbox_retry_state =
      insert id
        (record (retry_row_at id t) {
          quarantined = false;
          quarantined_at = unix_epoch;
          retry_count = dead.retry_count;
          next_attempt_at = now;
          last_error = [];
          lease_owner = [];
          lease_until = unix_epoch;
        })
        t.outbox_retry_state;
  dead_letters_by_time = delete (dead.quarantined_at, id) t.dead_letters_by_time;
  dead_letters_by_id = delete id t.dead_letters_by_id;
}

module _ (c : Cassandra) where
  open c use {Db, uuid_string, query}

  abbrev pub dead_record : (ℕ × ℕ) × DeadRow → EventRecord
  dead_record ((at, id), row) = record {
    id = uuid_string id;
    idempotency_key = [];
    stream = row.message.stream;
    subject = row.message.subject;
    event_type = row.message.event_type;
    payload = row.message.payload;
    occurred_at = 0;
    retry_count = row.retry_count;
    last_error = row.last_error;
    quarantined_at = at;
  }

  unfoldable pub list_dead_letters : Module → ℤ → Store c (List EventRecord)
  list_dead_letters m limit = with_session c m (do
    rows ← query (Map (ℕ × ℕ) DeadRow) (λ t. take (dead_letter_limit limit) t.dead_letters_by_time)
    return (map dead_record rows))

  -- The time of the outbox row, or now if there is none.
  abbrev occurred_or : ℕ → Option OutboxRow → ℕ
  occurred_or now none = now
  occurred_or now (some row) = row.occurred_at

  unfoldable pub replay_dead_letter : Module → ℕ → Text → Store c (Unit {0})
  replay_dead_letter m now event_id = with_session c m (do
    id ← to_uuid c event_id
    dead ← scan c DeadRow (λ t. lookup id t.dead_letters_by_id)
    row ← query (Option OutboxRow) (λ t. lookup id t.outbox_events)
    write c (replay_batch id dead (occurred_or now row) now))
