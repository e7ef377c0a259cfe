-- ===== src/Cass/Calls/Step.antt =====
-- Each call keeps what its statements keep (internal/modules/cassstore/module.go).
use shiro_distributed_system.Common.{
  ℕ, suc, inl, inr, Bool, Option, List, [], ◌∷◌, ◌++◌, Text, ℤ, Result, Result-cases, Bool-cases,
  Option-cases, nat_key, All, length, leb,
}
use shiro_distributed_system.Common.Assoc.{Map, lookup}
use shiro_distributed_system.Contracts.{Error, EventRecord}
use shiro_distributed_system.Cass.Tables.{
  Tables, Message, OutboxRow, RetryRow, DeadRow, PublishState,
}
use shiro_distributed_system.Cass.Driver.{Cassandra, IsLawful, Module, write}
use shiro_distributed_system.Cass.Append.{append_event_exactly_once}
use shiro_distributed_system.Cass.Outbox.{
  update_failed, RetryState, is_due, mark_outbox_published, load_retry_state, pending_record,
  pending_from, pending_outbox_events, claim_outbox_lease, bury, save_failure, record_failure_of,
  record_outbox_failure,
}
use shiro_distributed_system.Cass.DeadLetters.{replay_dead_letter}
use shiro_distributed_system.Cass.Inbox.{claim_inbox_message}
use shiro_distributed_system.Cass.Calls.Preserve.{
  Keeps, Keeps-query, Keeps-execute, Keeps-return, Keeps-bind, Keeps-with_session, Keeps-scan,
  Keeps-write, Keeps-to_uuid,
}
use shiro_distributed_system.Cass.Calls.{
  Call, appends, marks, polls, leases, fails, replays, consumes, step, run,
}
use shiro_distributed_system.Cass.Calls.Kept.{IsKept, IsFresh}
use shiro_distributed_system.Cass.Calls.Appends.{append_keyed-Keeps}

module _ (c : Cassandra) (lawful : IsLawful c) (I : Tables → Type 0) (Fresh Timely : ℕ → Type 0)
    (k : IsKept I Fresh Timely) where
  open c use {Db, tables, query, execute}

  mark-Keeps :
      (m : Module) (now : ℕ) (event_id broker_id : Text)
      → Keeps c lawful I
          (Result Error (Unit {0}))
          (mark_outbox_published c m now event_id broker_id)
  unfolding mark_outbox_published
  mark-Keeps m now event_id broker_id = Keeps-with_session c lawful I m _ (
      Keeps-bind c lawful I _ _ (Keeps-to_uuid c lawful I event_id) λ id.
        Keeps-bind c lawful I _ _ (Keeps-scan c lawful I OutboxRow _)
          λ row. Keeps-write c lawful I _ (k.publish_batch_keeps id row.occurred_at now broker_id))

  load-Keeps : (id : ℕ) → Keeps c lawful I (Result Error RetryState) (load_retry_state c id)
  unfolding load_retry_state
  load-Keeps id =
      Keeps-bind c lawful I _ _ (Keeps-query c lawful I (Option RetryRow) _)
        (λ row. Keeps-return c lawful I _)

  pending_from-Keeps :
      (limit : ℕ) (clock : ℕ → ℕ) (rows : Map (PublishState × (ℕ × ℕ)) Message)
      (out : List EventRecord) (db : Db)
      → I (tables db)
      → I (tables (pending_from c limit clock rows out db).1)
  unfolding pending_from
  pending_from-Keeps limit clock [] out db h = h
  pending_from-Keeps limit clock (row ∷ rows) out db h =
      let loaded = load_retry_state c row.0.1.1 db in
      let h' = (load-Keeps row.0.1.1).at db h in
      let later = λ (i : ℕ). clock (suc i) in
      elim (Result-cases loaded.0) [
        | inr (x, e) ↦ rw (e, pending_from) (pending_from-Keeps limit later rows out loaded.1 h')
        | inl (s, e) ↦
            let more = out ++ pending_record c row s ∷ [] in
            rw (e, pending_from)
              (elim (Bool-cases (is_due (clock 0) s)) [
                | inr no_due ↦ rw no_due (pending_from-Keeps limit later rows out loaded.1 h')
                | inl due ↦ rw due (elim (Bool-cases (leb limit (length more))) [
                  | inl full ↦ rw full h'
                  | inr room ↦ rw room (pending_from-Keeps limit later rows more loaded.1 h')
                ])
              ])
      ]

  polls-Keeps :
      (m : Module) (clock : ℕ → ℕ) (limit : ℤ)
      → Keeps c lawful I (Result Error (List EventRecord)) (pending_outbox_events c m clock limit)
  unfolding pending_outbox_events
  polls-Keeps m clock limit = Keeps-with_session c lawful I m _ (
      Keeps-bind c lawful I _ _ (Keeps-query c lawful I _ _)
        λ rows. record { at = pending_from-Keeps _ clock rows [] })

  leases-Keeps :
      (m : Module) (now : ℕ) (event_id owner : Text) (duration : ℕ)
      → Keeps c lawful I (Result Error Bool) (claim_outbox_lease c m now event_id owner duration)
  unfolding claim_outbox_lease
  leases-Keeps m now event_id owner duration = Keeps-with_session c lawful I m _ (
      Keeps-bind c lawful I _ _ (Keeps-to_uuid c lawful I event_id)
        λ id. Keeps-execute c lawful I Bool _ (k.claim_lease_keeps id owner _ now))

  bury-Keeps :
      (id retries : ℕ) (last_error : Text) (now : ℕ)
      → Keeps c lawful I (Result Error (Unit {0})) (bury c id retries last_error now)
  unfolding bury
  bury-Keeps id retries last_error now =
      Keeps-bind c lawful I _ _ (Keeps-scan c lawful I OutboxRow _)
        λ row. Keeps-write c lawful I _ (k.insert_dead_letter_keeps id _)

  save_failure-Keeps :
      (id retries next : ℕ) (last_error : Text) (quarantine : Bool) (now first : ℕ) (db : Db)
      → I (tables db)
      → I (tables (save_failure c id retries next last_error quarantine now first db).1)
  unfolding save_failure
  save_failure-Keeps id retries next last_error quarantine now first db h =
      let saved = write c (update_failed id retries next last_error quarantine now first) db in
      let h' =
        (Keeps-write c lawful I _
            (k.update_failed_keeps id retries next last_error quarantine now first)).at
          db h in
      elim (Result-cases saved.0) [
        | inr (x, e) ↦ rw (e, save_failure) h'
        | inl (u, e) ↦
            rw (e, save_failure)
              (elim (Bool-cases quarantine) [
                | inl up ↦ rw up ((bury-Keeps id retries last_error now).at _ (rw up at h'))
                | inr down ↦ rw down (rw down at h')
              ])
      ]

  record_failure_of-Keeps :
      (intn : ℕ → ℕ) (now : ℕ) (last_error : Text) (base most percent after : ℤ) (id : ℕ) (db : Db)
      → I (tables db)
      → I (tables (record_failure_of c intn now last_error base most percent after id db).1)
  unfolding record_failure_of
  record_failure_of-Keeps intn now last_error base most percent after id db h =
      let find = λ (t : Tables). lookup id t.outbox_retry_state in
      let loaded = query (Option RetryRow) find db in
      let h' = (Keeps-query c lawful I (Option RetryRow) find).at db h in
      elim (Result-cases loaded.0) [
        | inr (x, e) ↦ rw (e, record_failure_of) h'
        | inl (row, e) ↦
            rw (e, record_failure_of) (save_failure-Keeps id _ _ last_error _ now _ loaded.1 h')
      ]

  fails-Keeps :
      (m : Module) (intn : ℕ → ℕ) (now : ℕ) (event_id last_error : Text)
      (base most percent after : ℤ) (db : Db)
      → I (tables db)
      → I (
          tables
            (record_outbox_failure c m intn now event_id last_error base most percent after db).1)
  unfolding record_outbox_failure
  fails-Keeps m intn now event_id last_error base most percent after db h =
      elim (Bool-cases m.session) [
        | inr off ↦ rw off h
        | inl on ↦ rw on (elim (Option-cases (c.parse_uuid event_id)) [
          | inl bad ↦ rw bad h
          | inr (id, good) ↦
              rw good (record_failure_of-Keeps intn now last_error base most percent after id db h)
        ])
      ]

  replays-Keeps :
      (m : Module) (now : ℕ) (event_id : Text)
      → Keeps c lawful I (Result Error (Unit {0})) (replay_dead_letter c m now event_id)
  unfolding replay_dead_letter
  replays-Keeps m now event_id = Keeps-with_session c lawful I m _ (
      Keeps-bind c lawful I _ _ (Keeps-to_uuid c lawful I event_id) λ id.
        Keeps-bind c lawful I _ _ (Keeps-scan c lawful I DeadRow _) λ dead.
          Keeps-bind c lawful I _ _ (Keeps-query c lawful I (Option OutboxRow) _)
            λ row. Keeps-write c lawful I _ (k.replay_batch_keeps id dead _ now))

  consumes-Keeps :
      (m : Module) (now : ℕ) (consumer message_id : Text)
      → Keeps c lawful I (Result Error Bool) (claim_inbox_message c m now consumer message_id)
  unfolding claim_inbox_message
  consumes-Keeps m now consumer message_id =
      Keeps-with_session c lawful I m _
        (Keeps-execute c lawful I Bool _ (k.claim_message_keeps (consumer, message_id) now))

  pub step-keeps :
      (call : Call) (db : Db)
      → IsFresh Fresh Timely call
      → I (tables db)
      → I (tables (step c call db))
  unfolding step append_event_exactly_once
  step-keeps (appends m clock id event) db f h =
      (Keeps-with_session c lawful I m _
          (append_keyed-Keeps c lawful I Fresh Timely k clock id _ f.0 f.1)).at
        db h
  step-keeps (marks m now id b) db f h = (mark-Keeps m now id b).at db h
  step-keeps (polls m clock limit) db f h = (polls-Keeps m clock limit).at db h
  step-keeps (leases m now id owner d) db f h = (leases-Keeps m now id owner d).at db h
  step-keeps (fails m intn now id e b most p a) db f h = fails-Keeps m intn now id e b most p a db h
  step-keeps (replays m now id) db f h = (replays-Keeps m now id).at db h
  step-keeps (consumes m now consumer id) db f h = (consumes-Keeps m now consumer id).at db h

  pub run-keeps :
      (calls : List Call) (db : Db)
      → All (IsFresh Fresh Timely) calls
      → I (tables db)
      → I (tables (run c calls db))
  unfolding run
  run-keeps [] db f h = h
  run-keeps (call ∷ calls) db f h = run-keeps calls (step c call db) f.1 (step-keeps call db f.0 h)
