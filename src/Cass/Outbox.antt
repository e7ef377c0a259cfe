-- ===== src/Cass/Outbox.antt =====
-- The outbox of internal/modules/cassstore/module.go: what is pending, leases, success and failure.
pub mod Leases
pub mod Pending
pub mod Failures
pub mod Published
pub mod Tracked
pub mod Tracking
use shiro_distributed_system.Common.{
  ℕ, zero, suc, ◌+◌, ◌*◌, ◌≡◌, Bool, true, false, not, ◌&&◌, ◌||◌, Option, none, some, List, [],
  ◌∷◌, ◌++◌, Text, ℤ, pos, pos_part, nat_eq, ltb, leb, leb_ℤ, ltb_ℤ, if◌then◌else◌, Result, ok, err,
  nat_key, length, take, select, get_or,
}
use shiro_distributed_system.Common.Assoc.{Map, lookup, insert, delete}
use shiro_distributed_system.Contracts.{
  Error, EventRecord, not_found, session_not_available, invalid_uuid,
}
use shiro_distributed_system.Monad.{return, fail, or_fail, ◌>>=◌, ◌>>◌}
use shiro_distributed_system.Cass.Backoff.{backoff, add_time}
use shiro_distributed_system.Cass.Tables.{
  Tables, Message, OutboxRow, RetryRow, DeadRow, PublishState, pending, published, state_eq,
  unix_epoch, outbox_row_at, retry_row_at, outbox_key, time_key,
}
use shiro_distributed_system.Cass.Driver.{
  Cassandra, Module, Store, scan, write, with_session, to_uuid,
}

-- The batch of `MarkOutboxPublished`.
unfoldable pub publish_batch : ℕ → ℕ → ℕ → Text → Tables → Tables
publish_batch id occurred_at now broker_id t = record t {
  outbox_events =
      insert id
        (record (outbox_row_at id t) {
          publish_state = published;
          published_at = now;
          broker_message_id = broker_id;
        })
        t.outbox_events;
  outbox_by_state = delete (pending, (occurred_at, id)) t.outbox_by_state;
  outbox_retry_state = delete id t.outbox_retry_state;
}

-- UPDATE outbox_retry_state SET lease_owner, lease_until ... IF lease_until < now
unfoldable pub claim_lease : ℕ → Text → ℕ → ℕ → Tables → Bool × Tables
claim_lease id owner until now t = elim (lookup id t.outbox_retry_state) [
  | none ↦ (false, t)
  | some row ↦
      if ltb row.lease_until now
      then (
        true,
        record t {
          outbox_retry_state =
              insert id (record row { lease_owner = owner; lease_until = until })
                t.outbox_retry_state;
        },
      )
      else (false, t)
]

-- The UPDATE of `RecordOutboxFailure`.
unfoldable pub update_failed : ℕ → ℕ → ℕ → Text → Bool → ℕ → ℕ → Tables → Tables
update_failed id retries next_attempt last_error quarantine now first t = record t {
  outbox_retry_state =
      insert id
        (record {
          retry_count = retries;
          next_attempt_at = next_attempt;
          last_error = last_error;
          lease_owner = [];
          lease_until = unix_epoch;
          quarantined = quarantine;
          quarantined_at = now;
          first_failed_at = first;
        })
        t.outbox_retry_state;
}

-- The batch that writes a dead letter.
unfoldable pub insert_dead_letter : ℕ → DeadRow → Tables → Tables
insert_dead_letter id row t = record t {
  dead_letters_by_time = insert (row.quarantined_at, id) row t.dead_letters_by_time;
  dead_letters_by_id = insert id row t.dead_letters_by_id;
}

pub record RetryState : Type 0 where
  pub retry_count : ℕ
  pub next_attempt : ℕ
  pub quarantined : Bool
  pub lease_until : ℕ

abbrev pub retry_state_of : Option RetryRow → RetryState
retry_state_of none = record {
  retry_count = 0;
  next_attempt = unix_epoch;
  quarantined = false;
  lease_until = unix_epoch;
}
retry_state_of (some row) = record {
  retry_count = row.retry_count;
  next_attempt = row.next_attempt_at;
  quarantined = row.quarantined;
  lease_until = row.lease_until;
}

-- What `RecordOutboxFailure` returns, also beside an error.
pub record FailureReport : Type 0 where
  pub quarantined : Bool
  pub retry_count : ℕ
  pub error : Option Error

abbrev report : Bool → ℕ → Option Error → FailureReport
report quarantined retries error = record {
  quarantined = quarantined;
  retry_count = retries;
  error = error;
}

-- What the row of the retry state says: the failures so far and the time of the first.
abbrev pub failures_of : Option RetryRow → ℕ × ℕ
failures_of none = (0, 0)
failures_of (some row) = (row.retry_count, row.first_failed_at)

-- The limits of `PendingOutboxEvents`.
unfoldable pub pending_limit : ℤ → ℕ
pending_limit limit =
    if leb_ℤ limit (pos 0) then 100 else if ltb_ℤ (pos 2000) limit then 2000 else pos_part limit

unfoldable pub fetch_limit : ℕ → ℕ
fetch_limit limit = if ltb (limit * 5) 100 then 100 else limit * 5

-- SELECT ... FROM outbox_by_state WHERE publish_state = 'pending' LIMIT ?
unfoldable pub pending_rows : ℕ → Tables → Map (PublishState × (ℕ × ℕ)) Message
pending_rows n t = take n (select (λ r. state_eq r.0.0 pending) t.outbox_by_state)

-- Neither quarantined, nor to be tried later, nor leased.
unfoldable pub is_due : ℕ → RetryState → Bool
is_due now s = not (s.quarantined || ltb now s.next_attempt || ltb now s.lease_until)

module _ (c : Cassandra) where
  open c use {Db, uuid_string, query, execute}

  unfoldable pub mark_outbox_published : Module → ℕ → Text → Text → Store c (Unit {0})
  mark_outbox_published m now event_id broker_id = with_session c m (do
    id ← to_uuid c event_id
    row ← scan c OutboxRow (λ t. lookup id t.outbox_events)
    write c (publish_batch id row.occurred_at now broker_id))

  -- A missing row is no error.
  unfoldable pub load_retry_state : ℕ → Store c RetryState
  load_retry_state id = query (Option RetryRow) (λ t. lookup id t.outbox_retry_state) >>= λ row.
      return (retry_state_of row)

  abbrev pub pending_record : (PublishState × (ℕ × ℕ)) × Message → RetryState → EventRecord
  pending_record ((state, (at, id)), message) s = record {
    id = uuid_string id;
    idempotency_key = [];
    stream = message.stream;
    subject = message.subject;
    event_type = message.event_type;
    payload = message.payload;
    occurred_at = at;
    retry_count = s.retry_count;
    last_error = [];
    quarantined_at = 0;
  }

  -- The loop over the rows; `clock` gives the successive readings of `time.Now`.
  unfoldable pub pending_from :
      ℕ
      → (ℕ → ℕ)
      → Map (PublishState × (ℕ × ℕ)) Message
      → List EventRecord
      → Store c (List EventRecord)
  pending_from limit clock [] out db = (ok out, db)
  pending_from limit clock (row ∷ rows) out db =
      let rest = pending_from limit (λ i. clock (suc i)) rows in
      let loaded = load_retry_state row.0.1.1 db in
      elim loaded.0 [
        | err e ↦ rest out loaded.1
        | ok s ↦
            if is_due (clock 0) s
            then (let more = out ++ pending_record row s ∷ [] in
                if leb limit (length more) then (ok more, loaded.1) else rest more loaded.1)
            else rest out loaded.1
      ]

  unfoldable pub pending_outbox_events : Module → (ℕ → ℕ) → ℤ → Store c (List EventRecord)
  unfolding pending_from
  pending_outbox_events m clock limit = with_session c m (do
    let most = pending_limit limit
    rows ← query (Map (PublishState × (ℕ × ℕ)) Message) (pending_rows (fetch_limit most))
    pending_from most clock rows [])

  unfoldable pub claim_outbox_lease : Module → ℕ → Text → Text → ℕ → Store c Bool
  claim_outbox_lease m now event_id owner duration =
      with_session c m
        (do id ← to_uuid c event_id; execute Bool (claim_lease id owner (now + duration) now))

  -- The dead letter of a quarantined event.
  unfoldable pub bury : ℕ → ℕ → Text → ℕ → Store c (Unit {0})
  bury id retries last_error now = do
    row ← scan c OutboxRow (λ t. lookup id t.outbox_events)
    write c (
        insert_dead_letter id (record {
          message = row.message;
          quarantined_at = now;
          retry_count = retries;
          last_error = last_error;
        }))

  abbrev error_of : Result Error (Unit {0}) → Option Error
  error_of (ok _) = none
  error_of (err e) = some e

  -- From the UPDATE on; `quarantine` says whether the event is given up.
  unfoldable pub save_failure : ℕ → ℕ → ℕ → Text → Bool → ℕ → ℕ → Db → FailureReport × Db
  unfolding bury
  save_failure id retries next_attempt last_error quarantine now first db =
      let saved =
        write c (update_failed id retries next_attempt last_error quarantine now first) db in
      elim saved.0 [
        | err e ↦ (report false retries (some e), saved.1)
        | ok _ ↦
            if quarantine
            then (let buried = bury id retries last_error now saved.1 in
                (report true retries (error_of buried.0), buried.1))
            else (report false retries none, saved.1)
      ]

  -- `intn` stands for `rand.Intn`.
  unfoldable pub record_failure_of :
      (ℕ → ℕ) → ℕ → Text → ℤ → ℤ → ℤ → ℤ → ℕ → Db → FailureReport × Db
  unfolding save_failure
  record_failure_of intn now last_error base most percent after id db =
      let loaded = query (Option RetryRow) (λ t. lookup id t.outbox_retry_state) db in
      elim loaded.0 [
        | err e ↦ (report false 0 (some e), loaded.1)
        | ok row ↦
            let retries = suc (failures_of row).0 in
            let first = if nat_eq (failures_of row).1 0 then now else (failures_of row).1 in
            save_failure id retries (add_time now (backoff intn base most percent retries))
              last_error (leb_ℤ after (pos retries)) now first loaded.1
      ]

  unfoldable pub record_outbox_failure :
      Module → (ℕ → ℕ) → ℕ → Text → Text → ℤ → ℤ → ℤ → ℤ → Db → FailureReport × Db
  unfolding record_failure_of
  record_outbox_failure m intn now event_id last_error base most percent after db =
      if m.session
      then (elim (c.parse_uuid event_id) [
        | none ↦ (report false 0 (some invalid_uuid), db)
        | some id ↦ record_failure_of intn now last_error base most percent after id db
      ])
      else (report false 0 (some session_not_available), db)
