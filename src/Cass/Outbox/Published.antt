-- ===== src/Cass/Outbox/Published.antt =====
-- A publish that has been recorded (internal/modules/cassstore/module.go).
use shiro_distributed_system.Common.{
  ℕ, ◌≤◌, ◌≡◌, ◌≢◌, inl, inr, refl, sym, ap, subst, ◌∙◌, true, Option, none, some, List, Text,
  arith, ok, Result-cases, All, nat_key, Bool-cases,
}
use shiro_distributed_system.Common.Assoc.{lookup, lookup-insert_self, lookup-delete_self}
use shiro_distributed_system.Cass.Tables.{Tables, OutboxRow, pending, published, outbox_key}
use shiro_distributed_system.Cass.Driver.{Cassandra, IsLawful, Module, scan, write}
use shiro_distributed_system.Cass.Outbox.{publish_batch, mark_outbox_published}
use shiro_distributed_system.Cass.Outbox.Leases.{Claim, answers, is_leased, answers-refused}

-- The row after a publish.
abbrev pub published_row : OutboxRow → ℕ → Text → OutboxRow
published_row row now broker_id = record row {
  publish_state = published;
  published_at = now;
  broker_message_id = broker_id;
}

-- The event with this row waits for nothing: it is published, and is neither in the list of pending
-- events nor in the table of retries.
pub record IsSettled (id : ℕ) (row : OutboxRow) (now : ℕ) (broker_id : Text) (t : Tables)
    : Type 0 where
  pub marked : lookup id t.outbox_events ≡ some (published_row row now broker_id)
  pub not_pending : lookup (pending, (row.occurred_at, id)) t.outbox_by_state ≡ none
  pub not_retried : lookup id t.outbox_retry_state ≡ none

pub publish_batch-IsSettled :
    (id now : ℕ) (broker_id : Text) (row : OutboxRow) (t : Tables)
    → lookup id t.outbox_events ≡ some row
    → IsSettled id row now broker_id (publish_batch id row.occurred_at now broker_id t)
unfolding publish_batch
publish_batch-IsSettled id now broker_id row t h = record {
  marked = lookup-insert_self id _ t.outbox_events ∙ rw h refl;
  not_pending = lookup-delete_self (pending, (row.occurred_at, id)) t.outbox_by_state;
  not_retried = lookup-delete_self id t.outbox_retry_state;
}

module _ (c : Cassandra) (lawful : IsLawful c) where
  open c use {Db, tables, parse_uuid}

  scan-ok :
      (q : Tables → Option OutboxRow) (row : OutboxRow) (db : Db)
      → (scan c OutboxRow q db).0 ≡ ok row
      → (q (tables db) ≡ some row) × (tables (scan c OutboxRow q db).1 ≡ tables db)
  unfolding scan
  scan-ok q row db h = ground (arith, lawful.query_law (Option OutboxRow) q db)

  -- When `MarkOutboxPublished` returns without an error, the event had an outbox row; and now that row
  -- is published with the broker's id, the event is not among the pending ones at its time, and no
  -- retry state is kept for it.
  pub mark_outbox_published-IsSettled :
      (m : Module) (now : ℕ) (event_id broker_id : Text) (id : ℕ) (db : Db)
      → parse_uuid event_id ≡ some id
      → (mark_outbox_published c m now event_id broker_id db).0 ≡ ok tt
      → (row : OutboxRow) × (lookup id (tables db).outbox_events ≡ some row)
        × IsSettled id row now broker_id
            (tables (mark_outbox_published c m now event_id broker_id db).1)
  unfolding mark_outbox_published write
  mark_outbox_published-IsSettled m now event_id broker_id id db parsed h =
      let find = λ (t : Tables). lookup id t.outbox_events in
      let found = scan c OutboxRow find db in
      elim (Bool-cases m.session) [
        | inr off ↦ absurd (ground arith)
        | inl on ↦ elim (Result-cases found.0) [
          | inr (x, e) ↦ absurd (ground arith)
          | inl (row, e) ↦
              let (present, same) = scan-ok find row db e in
              let batch = publish_batch id row.occurred_at now broker_id in
              let settled = publish_batch-IsSettled id now broker_id row (tables db) present in
              elim (lawful.execute_law (Unit {0}) (λ t. (tt, batch t)) found.1) [
                | inr (x, e', _) ↦ absurd (ground arith)
                | inl (e', done) ↦ (
                  row,
                  present,
                  rw (on, parsed, e)
                      (subst (IsSettled id row now broker_id) (sym (done ∙ ap batch same)) settled),
                )
              ]
        ]
      ]

  settled-leased :
      (id till : ℕ) (row : OutboxRow) (now : ℕ) (broker_id : Text) (t : Tables)
      → IsSettled id row now broker_id t
      → is_leased id till t ≡ true
  unfolding is_leased
  settled-leased id till row now broker_id t s = rw (s.not_retried, is_leased) refl

  -- After a publish has been recorded, and while claims of the event alone come after it, no claim up
  -- to any time `till` is granted, whoever makes it.
  pub mark-ends_claims :
      (m m' : Module) (now : ℕ) (event_id broker_id : Text) (id till : ℕ) (claims : List Claim)
      (db : Db)
      → parse_uuid event_id ≡ some id
      → (mark_outbox_published c m now event_id broker_id db).0 ≡ ok tt
      → All (λ claim. claim.now ≤ till) claims
      → All
          (λ r. r ≢ ok true)
          (answers c m' event_id claims (mark_outbox_published c m now event_id broker_id db).1)
  mark-ends_claims m m' now event_id broker_id id till claims db parsed h early =
      let (row, _, settled) =
        mark_outbox_published-IsSettled m now event_id broker_id id db parsed h in
      answers-refused c lawful m' event_id id till claims _ parsed early
        (settled-leased id till row now broker_id _ settled)
