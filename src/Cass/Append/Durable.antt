-- ===== src/Cass/Append/Durable.antt =====
-- What an append reports is written (internal/modules/cassstore/module.go).
use shiro_distributed_system.Common.{
  ℕ, ◌≡◌, ◌≢◌, ◌⊎◌, nat_eq_iff, ok_injective, inl, inr, refl, sym, subst, Bool, true, false, Option,
  none, some, Text, arith, ok, Result-cases, Bool-cases, is_empty, nat_key,
}
use shiro_distributed_system.Common.Assoc.{lookup, lookup-insert, lookup-insert_self}
use shiro_distributed_system.Contracts.{EventRecord, AppendResult}
use shiro_distributed_system.Cass.Tables.{Tables, EventRow, IdempotencyRow}
use shiro_distributed_system.Cass.Driver.{Cassandra, IsLawful, Module, scan, write}
use shiro_distributed_system.Cass.Outbox.{
  publish_batch, claim_lease, update_failed, insert_dead_letter,
}
use shiro_distributed_system.Cass.DeadLetters.{replay_batch}
use shiro_distributed_system.Cass.Inbox.{claim_message}
use shiro_distributed_system.Cass.Append.{
  message_of, is_outbox_published, claim_key, insert_created, insert_event, with_defaults,
  existing_event, append_new, append_claimed, append_keyed, append_event_exactly_once,
}
use shiro_distributed_system.Cass.Append.Keys.{existing_event-IsDuplicateOf}
use shiro_distributed_system.Cass.Calls.Kept.{IsKept, Any}

abbrev pub found : Option EventRow → Bool
found none = false
found (some row) = true

-- The table of events has the event.
unfoldable pub is_written : ℕ → Tables → Bool
is_written id t = found (lookup id t.events_by_id)

abbrev pub row_of : EventRecord → EventRow
row_of event = record { message = message_of event; occurred_at = event.occurred_at }

-- The table of events has this row for the event.
abbrev pub IsStored : ℕ → EventRow → Tables → Type 0
IsStored id row t = lookup id t.events_by_id ≡ some row

claim_key-IsStored :
    (id : ℕ) (r : EventRow) (k : Text × Text) (row : IdempotencyRow) (t : Tables)
    → IsStored id r t
    → IsStored id r (claim_key k row t).1
unfolding claim_key
claim_key-IsStored id r k row t h = ground arith

claim_lease-IsStored :
    (id : ℕ) (r : EventRow) (e : ℕ) (owner : Text) (till now : ℕ) (t : Tables)
    → IsStored id r t
    → IsStored id r (claim_lease e owner till now t).1
unfolding claim_lease
claim_lease-IsStored id r e owner till now t h = ground arith

claim_message-IsStored :
    (id : ℕ) (r : EventRow) (k : Text × Text) (now : ℕ) (t : Tables)
    → IsStored id r t
    → IsStored id r (claim_message k now t).1
unfolding claim_message
claim_message-IsStored id r k now t h = ground arith

insert_event-keeps_IsStored :
    (id : ℕ) (r : EventRow) (new : ℕ) (event : EventRecord) (t : Tables)
    → new ≢ id
    → IsStored id r t
    → IsStored id r (insert_event new event t)
unfolding insert_event
insert_event-keeps_IsStored id r new event t other h =
    ground (arith, h, other, lookup-insert new id (row_of event) t.events_by_id, nat_eq_iff new id)

insert_event-IsStored :
    (id : ℕ) (event : EventRecord) (t : Tables)
    → IsStored id (row_of event) (insert_event id event t)
unfolding insert_event
insert_event-IsStored id event t = lookup-insert_self id (row_of event) t.events_by_id

-- No statement changes the row of an event but the append of that event.
pub IsStored-IsKept :
    (id : ℕ) (row : EventRow) (Fresh : ℕ → Type 0)
    → ((new : ℕ) → Fresh new → new ≢ id)
    → IsKept (IsStored id row) Fresh Any
IsStored-IsKept id r Fresh other = record {
  claim_key_keeps = λ k row t _ h. claim_key-IsStored id r k row t h;
  insert_created_keeps = λ k at new t _ h. unfold insert_created in h;
  insert_event_keeps = λ new e t f h. insert_event-keeps_IsStored id r new e t (other new f) h;
  publish_batch_keeps = λ e at now b t h. unfold publish_batch in h;
  claim_lease_keeps = λ e owner till now t h. claim_lease-IsStored id r e owner till now t h;
  update_failed_keeps = λ e n next x q now first t h. unfold update_failed in h;
  insert_dead_letter_keeps = λ e row t h. unfold insert_dead_letter in h;
  replay_batch_keeps = λ e d at now t h. unfold replay_batch in h;
  claim_message_keeps = λ k now t h. claim_message-IsStored id r k now t h;
}

-- The result of an append of the event stands for an event whose row has its contents: one that was
-- there, or this one under its new identity.
abbrev pub IsWritten : (c : Cassandra) → EventRecord → AppendResult → c.Db → Type 0
IsWritten c event a db =
    (h : ℕ) × (a.event.id ≡ c.uuid_string h)
    × IsStored h (row_of a.event) (c.tables db)
    × ((a.duplicate ≡ true) ⊎ (a.event ≡ record event { id = c.uuid_string h }))

module _ (c : Cassandra) (lawful : IsLawful c) where
  open c use {Db, tables, execute, uuid_string}

  append_new-IsWritten :
      (id : ℕ) (event : EventRecord) (db : Db) (a : AppendResult)
      → (append_new c id event db).0 ≡ ok a
      → IsWritten c event a (append_new c id event db).1
  unfolding append_new write
  append_new-IsWritten id event db a h =
      let insert : Tables → Unit {0} × Tables = λ t. (tt, insert_event id event t) in
      elim (lawful.execute_law (Unit {0}) insert db) [
        | inr (x, e, _) ↦ absurd (ground (arith, h, e))
        | inl (e, done) ↦
            let kept : IsStored id (row_of event) (tables (execute (Unit {0}) insert db).1) =
              subst (IsStored id (row_of event)) (sym done)
                (insert_event-IsStored id event (tables db)) in
            rw e (
              subst (λ a. IsWritten c event a (execute (Unit {0}) insert db).1)
                (ok_injective (rw e at h)) (id, refl, kept, inr refl))
      ]

  -- A row that a scan returns is there.
  scan-found :
      (id : ℕ) (db : Db) (row : EventRow)
      → (scan c EventRow (λ t. lookup id t.events_by_id) db).0 ≡ ok row
      → IsStored id row (tables db)
  unfolding scan
  scan-found id db row h =
      ground (arith, h, lawful.query_law (Option EventRow) (λ t. lookup id t.events_by_id) db)

  existing_event-IsWritten :
      (event : EventRecord) (key : Text) (id : ℕ) (db : Db) (a : AppendResult)
      → (existing_event c key id db).0 ≡ ok a
      → IsWritten c event a (existing_event c key id db).1
  unfolding existing_event
  existing_event-IsWritten event key id db a h =
      let row = scan c EventRow (λ (t : Tables). lookup id t.events_by_id) db in
      let (same, _) = existing_event-IsDuplicateOf c lawful key id db db refl in
      elim (Result-cases row.0) [
        | inr (x, e) ↦ absurd (ground (arith, h, e))
        | inl (r, e) ↦
            let kept = subst (IsStored id r) (sym same) (scan-found id db r e) in
            elim (Result-cases (is_outbox_published c id row.1).0) [
              | inr (x, e') ↦ absurd (ground (arith, h, e, e'))
              | inl (done, e') ↦
                  subst (λ a. IsWritten c event a (existing_event c key id db).1)
                    (ok_injective (rw (e, e') at h)) (id, refl, kept, inl refl)
            ]
      ]

  append_claimed-IsWritten :
      (id created : ℕ) (event : EventRecord) (claimed : Option ℕ) (db : Db) (a : AppendResult)
      → (append_claimed c id created event claimed db).0 ≡ ok a
      → IsWritten c event a (append_claimed c id created event claimed db).1
  unfolding append_claimed
  append_claimed-IsWritten id created event (some old) db a h =
      existing_event-IsWritten event event.idempotency_key old db a h
  append_claimed-IsWritten id created event none db a h =
      let first = write c (insert_created (event.stream, event.idempotency_key) created id) db in
      elim (Result-cases first.0) [
        | inr (x, e) ↦ absurd (ground (arith, h, e))
        | inl (u, e) ↦ rw e (append_new-IsWritten id event first.1 a (rw e at h))
      ]

  append_keyed-IsWritten :
      (clock : ℕ → ℕ) (id : ℕ) (event : EventRecord) (db : Db) (a : AppendResult)
      → (append_keyed c clock id event db).0 ≡ ok a
      → IsWritten c event a (append_keyed c clock id event db).1
  unfolding append_keyed
  append_keyed-IsWritten clock id event db a h =
      elim (Bool-cases (is_empty event.idempotency_key)) [
        | inl bare ↦ rw bare (append_new-IsWritten id event db a (rw bare at h))
        | inr keyed ↦
            let row : IdempotencyRow = record {
              event_id = id;
              payload_hash = c.sha256_hex event.payload;
              created_at = clock 1;
            } in
            let claimed =
              execute (Option ℕ) (claim_key (event.stream, event.idempotency_key) row) db in
            elim (Result-cases claimed.0) [
              | inr (x, e) ↦ absurd (ground (arith, h, e, keyed))
              | inl (old, e) ↦
                  rw (keyed, e)
                    (append_claimed-IsWritten id (clock 2) event old claimed.1 a
                      (rw (keyed, e) at h))
            ]
      ]

  -- The result of an append stands for an event whose row has its contents.
  pub append-IsWritten :
      (m : Module) (clock : ℕ → ℕ) (id : ℕ) (event : EventRecord) (db : Db) (a : AppendResult)
      → (append_event_exactly_once c m clock id event db).0 ≡ ok a
      → IsWritten c
          (with_defaults (clock 0) event)
          a
          (append_event_exactly_once c m clock id event db).1
  unfolding append_event_exactly_once
  append-IsWritten m clock id event db a h = elim (Bool-cases m.session) [
    | inr off ↦ absurd (ground (arith, h, off))
    | inl on ↦
        rw on (append_keyed-IsWritten clock id (with_defaults (clock 0) event) db a (rw on at h))
  ]
