-- ===== src/Cass/DeadLetters/Replay.antt =====
-- From quarantine back to the outbox (internal/modules/cassstore/module.go).
use shiro_distributed_system.Common.{
  ℕ, suc, ◌≡◌, refl, sym, ap, subst, ◌∙◌, true, false, Option, none, some, Text, ℤ, pos, arith, ok,
  nat_key, leb_ℤ,
}
use shiro_distributed_system.Common.Assoc.{lookup, lookup-insert_self, lookup-delete_self}
use shiro_distributed_system.Cass.Tables.{
  Tables, OutboxRow, DeadRow, pending, unix_epoch, outbox_key, time_key,
}
use shiro_distributed_system.Cass.Driver.{Cassandra, IsLawful, IsReliable, Module, scan}
use shiro_distributed_system.Cass.Outbox.{is_due, retry_state_of, record_outbox_failure}
use shiro_distributed_system.Cass.Outbox.Failures.{record_outbox_failure-value, write-value}
use shiro_distributed_system.Cass.DeadLetters.{replay_batch, replay_dead_letter}

-- The event is back in the outbox with the dead letter's message at this time, to be tried from `now`
-- on, with the dead letter's count of failures, and it is no dead letter.
pub record IsRequeued (id : ℕ) (dead : DeadRow) (occurred_at now : ℕ) (t : Tables) : Type 0 where
  pub outbox :
      (row : OutboxRow) × (lookup id t.outbox_events ≡ some row)
      × (row.message ≡ dead.message)
      × (row.publish_state ≡ pending)
      × (row.occurred_at ≡ occurred_at)
  pub listed : lookup (pending, (occurred_at, id)) t.outbox_by_state ≡ some dead.message
  pub state : retry_state_of (lookup id t.outbox_retry_state) ≡ record {
    retry_count = dead.retry_count;
    next_attempt = now;
    quarantined = false;
    lease_until = unix_epoch;
  }
  pub not_dead_by_id : lookup id t.dead_letters_by_id ≡ none
  pub not_dead_by_time : lookup (dead.quarantined_at, id) t.dead_letters_by_time ≡ none

replay_batch-IsRequeued :
    (id : ℕ) (dead : DeadRow) (occurred_at now : ℕ) (t : Tables)
    → IsRequeued id dead occurred_at now (replay_batch id dead occurred_at now t)
unfolding replay_batch is_due
replay_batch-IsRequeued id dead occurred_at now t = record {
  outbox = (_, lookup-insert_self id _ t.outbox_events, refl, refl, refl);
  listed = lookup-insert_self (pending, (occurred_at, id)) dead.message t.outbox_by_state;
  state = ap retry_state_of (lookup-insert_self id _ t.outbox_retry_state);
  not_dead_by_id = lookup-delete_self id t.dead_letters_by_id;
  not_dead_by_time = lookup-delete_self (dead.quarantined_at, id) t.dead_letters_by_time;
}

module _ (c : Cassandra) (lawful : IsLawful c) (reliable : IsReliable c) where
  open c use {Db, tables}

  scan_dead-value :
      (id : ℕ) (dead : DeadRow) (db : Db)
      → lookup id (tables db).dead_letters_by_id ≡ some dead
      → let r = scan c DeadRow (λ t. lookup id t.dead_letters_by_id) db in
        (r.0 ≡ ok dead) × (tables r.1 ≡ tables db)
  unfolding scan
  scan_dead-value id dead db h =
      let find = λ (t : Tables). lookup id t.dead_letters_by_id in
      ground (
        arith,
        reliable.query_ok (Option DeadRow) find db,
        lawful.query_law (Option DeadRow) find db,
      )

  replay_dead_letter-value :
      (m : Module) (now : ℕ) (event_id : Text) (id : ℕ) (dead : DeadRow) (row : OutboxRow) (db : Db)
      → m.session ≡ true
      → c.parse_uuid event_id ≡ some id
      → lookup id (tables db).dead_letters_by_id ≡ some dead
      → lookup id (tables db).outbox_events ≡ some row
      → let r = replay_dead_letter c m now event_id db in
        (r.0 ≡ ok tt) × (tables r.1 ≡ replay_batch id dead row.occurred_at now (tables db))
  unfolding replay_dead_letter
  replay_dead_letter-value m now event_id id dead row db on parsed is_dead present =
      let find = λ (t : Tables). lookup id t.outbox_events in
      let found = scan c DeadRow (λ t. lookup id t.dead_letters_by_id) db in
      let (e, same) = scan_dead-value id dead db is_dead in
      let loaded = c.query (Option OutboxRow) find found.1 in
      let same' = (lawful.query_law (Option OutboxRow) find found.1).0 ∙ same in
      let e' = reliable.query_ok (Option OutboxRow) find found.1 ∙ ap ok (ap find same ∙ present) in
      let batch = replay_batch id dead row.occurred_at now in
      let (e'', done) = write-value c lawful reliable batch loaded.1 in
      rw (on, parsed, e, e') (e'', done ∙ ap batch same')

  -- With a session that does not fail, replaying a dead letter puts its event back in the outbox: its
  -- row is pending with the dead letter's message at its old time, it is listed among the pending
  -- events, it is not quarantined, it may be tried from the time of the replay on, it has no lease, it
  -- has the dead letter's count of failures, and it leaves both tables of dead letters.
  pub replay_dead_letter-IsRequeued :
      (m : Module) (now : ℕ) (event_id : Text) (id : ℕ) (dead : DeadRow) (row : OutboxRow) (db : Db)
      → m.session ≡ true
      → c.parse_uuid event_id ≡ some id
      → lookup id (tables db).dead_letters_by_id ≡ some dead
      → lookup id (tables db).outbox_events ≡ some row
      → let r = replay_dead_letter c m now event_id db in
        (r.0 ≡ ok tt) × IsRequeued id dead row.occurred_at now (tables r.1)
  replay_dead_letter-IsRequeued m now event_id id dead row db on parsed is_dead present =
      let (e, same) =
        replay_dead_letter-value m now event_id id dead row db on parsed is_dead present in
      (
        e,
        subst (IsRequeued id dead row.occurred_at now) (sym same)
            (replay_batch-IsRequeued id dead row.occurred_at now (tables db)),
      )

  -- A replayed event has no retries to spare: if its dead letter's count has reached the limit, the
  -- next reported failure quarantines it again.
  pub replay-quarantines :
      (m : Module) (intn : ℕ → ℕ) (now later : ℕ) (event_id last_error : Text)
      (base most percent after : ℤ) (id : ℕ) (dead : DeadRow) (row : OutboxRow) (db : Db)
      → m.session ≡ true
      → c.parse_uuid event_id ≡ some id
      → lookup id (tables db).dead_letters_by_id ≡ some dead
      → lookup id (tables db).outbox_events ≡ some row
      → leb_ℤ after (pos dead.retry_count) ≡ true
      → (record_outbox_failure c m intn later event_id last_error base most percent after
          (replay_dead_letter c m now event_id db).1).0
        ≡ record { quarantined = true; retry_count = suc dead.retry_count; error = none }
  replay-quarantines m intn now later event_id last_error base most percent after id dead row db on
        parsed is_dead present reached =
      let (_, requeued) =
        replay_dead_letter-IsRequeued m now event_id id dead row db on parsed is_dead present in
      let (row', present', _, _, _) = requeued.outbox in
      let (e, _) =
        record_outbox_failure-value c lawful reliable m intn later event_id last_error base most
          percent after id row' _ on parsed present' in
      e ∙ ground (arith, requeued.state)
