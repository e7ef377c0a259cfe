-- ===== src/Cass/Outbox/Failures.antt =====
-- Failed publishes: counting, backing off and giving up (internal/modules/cassstore/module.go).
use shiro_distributed_system.Common.{
  ℕ, suc, ◌≡◌, ap, ◌∙◌, Bool, true, false, Option, none, some, [], Text, ℤ, pos, arith, ok, nat_key,
  nat_eq, leb_ℤ, if◌then◌else◌,
}
use shiro_distributed_system.Common.Assoc.{lookup, insert}
use shiro_distributed_system.Cass.Backoff.{backoff, add_time}
use shiro_distributed_system.Cass.Tables.{
  Tables, OutboxRow, RetryRow, DeadRow, unix_epoch, time_key,
}
use shiro_distributed_system.Cass.Driver.{Cassandra, IsLawful, IsReliable, Module, scan, write}
use shiro_distributed_system.Cass.Outbox.{
  update_failed, insert_dead_letter, failures_of, bury, save_failure, record_failure_of,
  record_outbox_failure,
}

-- The retry row after a failure, given the count of failures with it.
abbrev pub failed_row : ℕ → ℕ → Text → Bool → ℕ → ℕ → RetryRow
failed_row retries next last_error quarantine now first = record {
  retry_count = retries;
  next_attempt_at = next;
  last_error = last_error;
  lease_owner = [];
  lease_until = unix_epoch;
  quarantined = quarantine;
  quarantined_at = now;
  first_failed_at = first;
}

abbrev pub dead_row : OutboxRow → ℕ → Text → ℕ → DeadRow
dead_row row retries last_error now = record {
  message = row.message;
  quarantined_at = now;
  retry_count = retries;
  last_error = last_error;
}

-- What the tables are after a failure, in one step.
abbrev pub after_failure : ℕ → OutboxRow → ℕ → ℕ → Text → Bool → ℕ → ℕ → Tables → Tables
after_failure id row retries next last_error quarantine now first t =
    let counted : Tables = record t {
      outbox_retry_state =
          insert id (failed_row retries next last_error quarantine now first) t.outbox_retry_state;
    } in
    let dead = dead_row row retries last_error now in
    if quarantine
    then record counted {
      dead_letters_by_time = insert (now, id) dead t.dead_letters_by_time;
      dead_letters_by_id = insert id dead t.dead_letters_by_id;
    }
    else counted

-- The failures of an event before a call, and the time of the first one after it.
abbrev pub count_before : ℕ → Tables → ℕ
count_before id t = (failures_of (lookup id t.outbox_retry_state)).0

abbrev pub first_after : ℕ → ℕ → Tables → ℕ
first_after id now t =
    let first = (failures_of (lookup id t.outbox_retry_state)).1 in
    if nat_eq first 0 then now else first

module _ (c : Cassandra) (lawful : IsLawful c) (reliable : IsReliable c) where
  open c use {Db, tables}

  pub write-value :
      (u : Tables → Tables) (db : Db)
      → ((write c u db).0 ≡ ok tt) × (tables (write c u db).1 ≡ u (tables db))
  unfolding write
  write-value u db = reliable.execute_ok (Unit {0}) (λ t. (tt, u t)) db

  pub scan-value :
      (q : Tables → Option OutboxRow) (row : OutboxRow) (db : Db)
      → q (tables db) ≡ some row
      → ((scan c OutboxRow q db).0 ≡ ok row) × (tables (scan c OutboxRow q db).1 ≡ tables db)
  unfolding scan
  scan-value q row db h =
      ground
        (arith, reliable.query_ok (Option OutboxRow) q db, lawful.query_law (Option OutboxRow) q db)

  bury-value :
      (id retries : ℕ) (last_error : Text) (now : ℕ) (row : OutboxRow) (db : Db)
      → lookup id (tables db).outbox_events ≡ some row
      → ((bury c id retries last_error now db).0 ≡ ok tt)
        × (tables (bury c id retries last_error now db).1
            ≡ insert_dead_letter id (dead_row row retries last_error now) (tables db))
  unfolding bury
  bury-value id retries last_error now row db h =
      let find = λ (t : Tables). lookup id t.outbox_events in
      let dead = insert_dead_letter id (dead_row row retries last_error now) in
      let found = scan-value find row db h in
      let written = write-value dead (scan c OutboxRow find db).1 in
      rw found.0 (written.0, written.1 ∙ ap dead found.1)

  save_failure-value :
      (id retries next : ℕ) (last_error : Text) (quarantine : Bool) (now first : ℕ)
      (row : OutboxRow) (db : Db)
      → lookup id (tables db).outbox_events ≡ some row
      → let r = save_failure c id retries next last_error quarantine now first db in
        (r.0 ≡ record { quarantined = quarantine; retry_count = retries; error = none })
        × (tables r.1
            ≡ after_failure id row retries next last_error quarantine now first (tables db))
  unfolding save_failure update_failed insert_dead_letter
  save_failure-value id retries next last_error true now first row db h =
      let counted = update_failed id retries next last_error true now first in
      let saved = write-value counted db in
      let buried =
        bury-value id retries last_error now row (write c counted db).1
          (ap (λ t. lookup id t.outbox_events) saved.1 ∙ h) in
      ground (arith, saved, buried)
  save_failure-value id retries next last_error false now first row db h =
      let saved = write-value (update_failed id retries next last_error false now first) db in
      ground (arith, saved)

  record_failure_of-value :
      (intn : ℕ → ℕ) (now : ℕ) (last_error : Text) (base most percent after : ℤ) (id : ℕ)
      (row : OutboxRow) (db : Db)
      → lookup id (tables db).outbox_events ≡ some row
      → let n = suc (count_before id (tables db)) in
        let up = leb_ℤ after (pos n) in
        let r = record_failure_of c intn now last_error base most percent after id db in
        (r.0 ≡ record { quarantined = up; retry_count = n; error = none })
        × (tables r.1
            ≡ after_failure id row n
                (add_time now (backoff intn base most percent n))
                last_error
                up
                now
                (first_after id now (tables db))
                (tables db))
  unfolding record_failure_of
  record_failure_of-value intn now last_error base most percent after id row db h =
      let find = λ (t : Tables). lookup id t.outbox_retry_state in
      let loaded = c.query (Option RetryRow) find db in
      let same = (lawful.query_law (Option RetryRow) find db).0 in
      let n = suc (count_before id (tables db)) in
      let next = add_time now (backoff intn base most percent n) in
      let up = leb_ℤ after (pos n) in
      let first = first_after id now (tables db) in
      let saved =
        save_failure-value id n next last_error up now first row loaded.1
          (ap (λ t. lookup id t.outbox_events) same ∙ h) in
      rw (reliable.query_ok (Option RetryRow) find db, record_failure_of)
        (saved.0, saved.1 ∙ ap (after_failure id row n next last_error up now first) same)

  -- With a session that does not fail, a report of a failure adds one to the count of the event, sets
  -- the next attempt after the backoff for that count, gives the lease back and keeps the time of the
  -- first failure; when the count reaches the limit it marks the event as quarantined and writes its
  -- dead letter to both tables, and otherwise it leaves those alone. No other table changes.
  pub record_outbox_failure-value :
      (m : Module) (intn : ℕ → ℕ) (now : ℕ) (event_id last_error : Text)
      (base most percent after : ℤ) (id : ℕ) (row : OutboxRow) (db : Db)
      → m.session ≡ true
      → c.parse_uuid event_id ≡ some id
      → lookup id (tables db).outbox_events ≡ some row
      → let n = suc (count_before id (tables db)) in
        let up = leb_ℤ after (pos n) in
        let r = record_outbox_failure c m intn now event_id last_error base most percent after db in
        (r.0 ≡ record { quarantined = up; retry_count = n; error = none })
        × (tables r.1
            ≡ after_failure id row n
                (add_time now (backoff intn base most percent n))
                last_error
                up
                now
                (first_after id now (tables db))
                (tables db))
  unfolding record_outbox_failure
  record_outbox_failure-value m intn now event_id last_error base most percent after id row db on
        parsed h =
      rw (on, parsed)
        (record_failure_of-value intn now last_error base most percent after id row db h)
