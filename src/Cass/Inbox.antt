-- ===== src/Cass/Inbox.antt =====
-- The inbox and the event history of internal/modules/cassstore/module.go.
pub mod Once
use shiro_distributed_system.Common.{
  ℕ, Bool, true, false, none, some, List, map, select, take, Text, ℤ, pos, pos_part, leb_ℤ, ltb_ℤ,
  text_eq, if◌then◌else◌, [],
}
use shiro_distributed_system.Common.Assoc.{Map, lookup, insert}
use shiro_distributed_system.Contracts.{EventRecord}
use shiro_distributed_system.Monad.{return, ◌>>=◌}
use shiro_distributed_system.Cass.Tables.{Tables, Message, StreamKey, text_pair_key}
use shiro_distributed_system.Cass.Driver.{Cassandra, Module, Store, with_session}

-- INSERT INTO inbox_consumed ... IF NOT EXISTS
unfoldable pub claim_message : Text × Text → ℕ → Tables → Bool × Tables
claim_message key now t = elim (lookup key t.inbox_consumed) [
  | none ↦ (true, record t { inbox_consumed = insert key now t.inbox_consumed })
  | some _ ↦ (false, t)
]

-- The limits of `RecentEvents`.
unfoldable pub recent_limit : ℤ → ℕ
recent_limit limit =
    if leb_ℤ limit (pos 0) then 50 else if ltb_ℤ (pos 500) limit then 500 else pos_part limit

module _ (c : Cassandra) where
  open c use {uuid_string, query, execute}

  unfoldable pub claim_inbox_message : Module → ℕ → Text → Text → Store c Bool
  claim_inbox_message m now consumer message_id =
      with_session c m (execute Bool (claim_message (consumer, message_id) now))

  abbrev pub recent_record : StreamKey × Message → EventRecord
  recent_record (key, message) = record {
    id = uuid_string key.event_id;
    idempotency_key = [];
    stream = key.stream;
    subject = message.subject;
    event_type = message.event_type;
    payload = message.payload;
    occurred_at = key.occurred_at;
    retry_count = 0;
    last_error = [];
    quarantined_at = 0;
  }

  unfoldable pub recent_events : Module → Text → ℤ → Store c (List EventRecord)
  recent_events m stream limit = with_session c m (do
    rows ← query (Map StreamKey Message) (λ t.
        take (recent_limit limit) (select (λ r. text_eq r.0.stream stream) t.events_by_stream))
    return (map recent_record rows))
