-- ===== src/Cass/Tables.antt =====
-- The tables of the keyspace, after the `CREATE TABLE` statements of
-- internal/modules/cassstore/module.go. A table is a list of rows by primary key, each partition in
-- its clustering order. The column `bucket` has one value only and is left out; a null column is
-- its Go zero value, as a scan reads it.
use shiro_distributed_system.Common.{
  ℕ, ◌≡◌, ◌↔◌, Bool, true, false, ◌&&◌, ◌||◌, [], ◌∷◌, Text, ltb, nat_eq, nat_eq_iff, text_eq,
  text_eq_iff, Key, text_key, nat_key, pair_key, arith, ◌*◌, get_or,
}
use shiro_distributed_system.Common.Assoc.{Map, lookup}

-- Texts in the order of their code points.
text_before : Text → Text → Bool
text_before [] [] = false
text_before [] (b ∷ t) = true
text_before (a ∷ s) [] = false
text_before (a ∷ s) (b ∷ t) = ltb a b || (nat_eq a b && text_before s t)

abbrev pub ordered_text_key : Key Text
unfolding text_before
ordered_text_key = record { beq = text_eq; beq_iff = text_eq_iff; before = text_before }

pub data PublishState : Type 0 where
  pending published : PublishState

abbrev pub state_eq : PublishState → PublishState → Bool
state_eq pending pending = true
state_eq published published = true
state_eq _ _ = false

pub state_eq_iff : (a b : PublishState) → (state_eq a b ≡ true) ↔ (a ≡ b)
state_eq_iff pending pending = ground arith
state_eq_iff pending published = ground arith
state_eq_iff published pending = ground arith
state_eq_iff published published = ground arith

instance abbrev pub state_key : Key PublishState
state_key = record { beq = state_eq; beq_iff = state_eq_iff; before = λ _ _. false }

-- A partition in descending order of time, then of event.
abbrev pub descending_key : Key ℕ
descending_key = record { beq = nat_eq; beq_iff = nat_eq_iff; before = λ a b. ltb b a }

pub record StreamKey : Type 0 where
  pub stream : Text
  pub occurred_at : ℕ
  pub event_id : ℕ

abbrev pub stream_key_eq : StreamKey → StreamKey → Bool
stream_key_eq p q =
    text_eq p.stream q.stream && nat_eq p.occurred_at q.occurred_at && nat_eq p.event_id q.event_id

pub stream_key_eq_iff : (p q : StreamKey) → (stream_key_eq p q ≡ true) ↔ (p ≡ q)
stream_key_eq_iff p q = ground (arith, text_eq_iff p.stream q.stream)

instance abbrev pub stream_key : Key StreamKey
stream_key = record {
  beq = stream_key_eq;
  beq_iff = stream_key_eq_iff;
  before = λ p q.
      text_eq p.stream q.stream
      && (ltb q.occurred_at p.occurred_at
          || (nat_eq p.occurred_at q.occurred_at && ltb q.event_id p.event_id));
}

-- (stream, idempotency_key) and (consumer, message_id)
instance abbrev pub text_pair_key : Key (Text × Text)
text_pair_key = pair_key text_key text_key

-- (quarantined_at, event_id)
instance abbrev pub time_key : Key (ℕ × ℕ)
time_key = pair_key nat_key nat_key

-- (publish_state, occurred_at, event_id)
instance abbrev pub outbox_key : Key (PublishState × (ℕ × ℕ))
outbox_key = pair_key state_key time_key

-- (created_at, stream, idempotency_key)
instance abbrev pub created_key : Key (ℕ × (Text × Text))
unfolding text_before
created_key = pair_key nat_key (pair_key ordered_text_key ordered_text_key)

-- The columns stream, subject, event_type and payload, which six of the tables have.
pub record Message : Type 0 where
  pub stream : Text
  pub subject : Text
  pub event_type : Text
  pub payload : Text

pub record EventRow : Type 0 where
  pub message : Message
  pub occurred_at : ℕ

pub record IdempotencyRow : Type 0 where
  pub event_id : ℕ
  pub payload_hash : Text
  pub created_at : ℕ

pub record OutboxRow : Type 0 where
  pub message : Message
  pub occurred_at : ℕ
  pub publish_state : PublishState
  pub published_at : ℕ
  pub broker_message_id : Text

pub record RetryRow : Type 0 where
  pub retry_count : ℕ
  pub next_attempt_at : ℕ
  pub last_error : Text
  pub lease_owner : Text
  pub lease_until : ℕ
  pub quarantined : Bool
  pub quarantined_at : ℕ
  pub first_failed_at : ℕ

pub record DeadRow : Type 0 where
  pub message : Message
  pub quarantined_at : ℕ
  pub retry_count : ℕ
  pub last_error : Text

pub record Tables : Type 0 where
  pub events_by_stream : Map StreamKey Message
  pub events_by_id : Map ℕ EventRow
  pub idempotency_keys : Map (Text × Text) IdempotencyRow
  pub idempotency_by_created : Map (ℕ × (Text × Text)) ℕ
  pub outbox_events : Map ℕ OutboxRow
  pub outbox_retry_state : Map ℕ RetryRow
  pub outbox_by_state : Map (PublishState × (ℕ × ℕ)) Message
  pub inbox_consumed : Map (Text × Text) ℕ
  pub dead_letters_by_time : Map (ℕ × ℕ) DeadRow
  pub dead_letters_by_id : Map ℕ DeadRow

-- The keyspace that `Start` creates.
abbrev pub empty_tables : Tables
empty_tables = record {
  events_by_stream = [];
  events_by_id = [];
  idempotency_keys = [];
  idempotency_by_created = [];
  outbox_events = [];
  outbox_retry_state = [];
  outbox_by_state = [];
  inbox_consumed = [];
  dead_letters_by_time = [];
  dead_letters_by_id = [];
}

-- time.Unix(0, 0), in nanoseconds since the zero `time.Time`.
abbrev pub unix_epoch : ℕ
unix_epoch = 62135596800 * 1_000_000_000

abbrev pub blank_message : Message
blank_message = record { stream = []; subject = []; event_type = []; payload = [] }

-- A row with every column null.
abbrev pub blank_outbox_row : OutboxRow
blank_outbox_row = record {
  message = blank_message;
  occurred_at = 0;
  publish_state = pending;
  published_at = 0;
  broker_message_id = [];
}

abbrev pub blank_retry_row : RetryRow
blank_retry_row = record {
  retry_count = 0;
  next_attempt_at = 0;
  last_error = [];
  lease_owner = [];
  lease_until = 0;
  quarantined = false;
  quarantined_at = 0;
  first_failed_at = 0;
}

-- The rows that an INSERT or an UPDATE finds: their other columns stay.
abbrev pub outbox_row_at : ℕ → Tables → OutboxRow
outbox_row_at id t = get_or (lookup id t.outbox_events) blank_outbox_row

abbrev pub retry_row_at : ℕ → Tables → RetryRow
retry_row_at id t = get_or (lookup id t.outbox_retry_state) blank_retry_row
