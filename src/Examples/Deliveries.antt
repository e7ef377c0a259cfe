-- ===== src/Examples/Deliveries.antt =====
-- Leases, publishes, failures and replays of one event, at the store in memory.
use shiro_distributed_system.Common.{
  ◌≡◌, ◌≢◌, refl, true, none, some, List, [], ◌∷◌, Text, pos, ok, codes, nat_key, arith, All, take,
}
use shiro_distributed_system.Common.Assoc.{lookup}
use shiro_distributed_system.Cass.Backoff.{backoff, add_time}
use shiro_distributed_system.Cass.Tables.{
  Tables, Message, OutboxRow, DeadRow, RetryRow, pending, empty_tables, blank_retry_row,
}
use shiro_distributed_system.Cass.Driver.{scan, write}
use shiro_distributed_system.Cass.Outbox.{
  claim_lease, claim_outbox_lease, mark_outbox_published, record_outbox_failure,
  pending_outbox_events, pending_limit, fetch_limit, pending_rows,
}
use shiro_distributed_system.Cass.Outbox.Leases.{Claim, answers, claim-excludes}
use shiro_distributed_system.Cass.Outbox.Published.{
  IsSettled, mark_outbox_published-IsSettled, mark-ends_claims,
}
use shiro_distributed_system.Cass.Outbox.Failures.{
  after_failure, first_after, record_outbox_failure-value,
}
use shiro_distributed_system.Cass.Outbox.Pending.{due_records, pending_outbox_events-value}
use shiro_distributed_system.Cass.DeadLetters.{replay_dead_letter}
use shiro_distributed_system.Cass.DeadLetters.Replay.{replay-quarantines}
use shiro_distributed_system.Examples.Memory.{memory, memory-IsLawful, memory-IsReliable, connected}

abbrev order_message : Message
order_message = record {
  stream = codes "orders";
  subject = codes "events.orders";
  event_type = codes "order.created";
  payload = codes "{}";
}

abbrev pub order_row : OutboxRow
order_row = record {
  message = order_message;
  occurred_at = 5;
  publish_state = pending;
  published_at = 0;
  broker_message_id = [];
}

abbrev pub order_retry : RetryRow
order_retry = record blank_retry_row { retry_count = 2; lease_until = 12 }

abbrev pub order_dead : DeadRow
order_dead = record {
  message = order_message;
  quarantined_at = 9;
  retry_count = 3;
  last_error = codes "timeout";
}

-- Event 7 waits, after two failures; its lease has run out at 12.
abbrev pub waiting : Tables
waiting = record empty_tables {
  outbox_events = (7, order_row) ∷ [];
  outbox_by_state = ((pending, (5, 7)), order_message) ∷ [];
  outbox_retry_state = (7, order_retry) ∷ [];
}

-- The same event as a dead letter.
abbrev pub buried : Tables
buried = record waiting {
  dead_letters_by_time = ((9, 7), order_dead) ∷ [];
  dead_letters_by_id = (7, order_dead) ∷ [];
}

abbrev seven : Text
seven = 7 ∷ []

abbrev rivals : List Claim
rivals =
    record { now = 21; owner = codes "b"; duration = 9 }
    ∷ record { now = 35; owner = codes "c"; duration = 9 }
    ∷ []

claim-excludes_example :
    All
      (λ r. r ≢ ok true)
      (answers memory connected seven rivals
        (claim_outbox_lease memory connected 20 seven (codes "a") 15 waiting).1)
unfolding claim_outbox_lease claim_lease lookup
claim-excludes_example =
    claim-excludes memory memory-IsLawful connected connected 20 seven (codes "a") 15 7 rivals
      waiting refl refl (omega arith, (omega arith, tt))

mark_outbox_published-IsSettled_example :
    (row : OutboxRow) × (lookup 7 waiting.outbox_events ≡ some row)
    × IsSettled 7 row 40
        (codes "b-1")
        (mark_outbox_published memory connected 40 seven (codes "b-1") waiting).1
unfolding mark_outbox_published scan write lookup
mark_outbox_published-IsSettled_example =
    mark_outbox_published-IsSettled memory memory-IsLawful connected 40 seven (codes "b-1") 7
      waiting refl refl

mark-ends_claims_example :
    All
      (λ r. r ≢ ok true)
      (answers memory connected seven rivals
        (mark_outbox_published memory connected 20 seven (codes "b-1") waiting).1)
unfolding mark_outbox_published scan write lookup
mark-ends_claims_example =
    mark-ends_claims memory memory-IsLawful connected connected 20 seven (codes "b-1") 7 50 rivals
      waiting refl refl (omega arith, (omega arith, tt))

-- The third failure, with a limit of three.
record_outbox_failure-value_example :
    let r =
      record_outbox_failure memory connected
        (λ _. 0)
        40
        seven
        (codes "down")
        (pos 500_000_000)
        (pos 30_000_000_000)
        (pos 25)
        (pos 3)
        waiting in
    (r.0 ≡ record { quarantined = true; retry_count = 3; error = none })
    × (r.1
        ≡ after_failure 7 order_row 3
            (add_time 40 (backoff (λ _. 0) (pos 500_000_000) (pos 30_000_000_000) (pos 25) 3))
            (codes "down")
            true
            40
            (first_after 7 40 waiting)
            waiting)
unfolding lookup
record_outbox_failure-value_example =
    record_outbox_failure-value memory memory-IsLawful memory-IsReliable connected (λ _. 0) 40 seven
      (codes "down") (pos 500_000_000) (pos 30_000_000_000) (pos 25) (pos 3) 7 order_row waiting
      refl refl refl

replay-quarantines_example :
    (record_outbox_failure memory connected
      (λ _. 0)
      60
      seven
      (codes "down")
      (pos 500_000_000)
      (pos 30_000_000_000)
      (pos 25)
      (pos 3)
      (replay_dead_letter memory connected 50 seven buried).1).0
    ≡ record { quarantined = true; retry_count = 4; error = none }
unfolding lookup
replay-quarantines_example =
    replay-quarantines memory memory-IsLawful memory-IsReliable connected (λ _. 0) 50 60 seven
      (codes "down") (pos 500_000_000) (pos 30_000_000_000) (pos 25) (pos 3) 7 order_dead order_row
      buried refl refl refl refl refl

pending_outbox_events-value_example :
    (pending_outbox_events memory connected (λ _. 20) (pos 10) waiting).0
    ≡ ok (
        take (pending_limit (pos 10)) (
          due_records memory 20 waiting
            (pending_rows (fetch_limit (pending_limit (pos 10))) waiting)))
pending_outbox_events-value_example =
    pending_outbox_events-value memory memory-IsLawful memory-IsReliable connected 20 (pos 10)
      waiting refl
