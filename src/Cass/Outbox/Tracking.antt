-- ===== src/Cass/Outbox/Tracking.antt =====
-- What each statement does to an event that the outbox tracks
-- (internal/modules/cassstore/module.go).
use shiro_distributed_system.Common.{
  ℕ, ◌≡◌, inl, inr, Bool, true, false, ◌&&◌, Option, none, some, Text, arith, nat_key, nat_eq,
  nat_eq_iff, Bool-cases, Option-cases, Key, ltb, refl, subst, sym,
}
use shiro_distributed_system.Common.Assoc.{
  Map, lookup, insert, lookup-insert, lookup-insert_self, lookup-insert_other, lookup-delete_other,
}
use shiro_distributed_system.Contracts.{EventRecord}
use shiro_distributed_system.Cass.Tables.{
  Tables, Message, OutboxRow, RetryRow, IdempotencyRow, DeadRow, pending, published, outbox_key,
  time_key,
}
use shiro_distributed_system.Cass.Append.{claim_key, insert_event}
use shiro_distributed_system.Cass.Outbox.{publish_batch, claim_lease, update_failed}
use shiro_distributed_system.Cass.DeadLetters.{replay_batch}
use shiro_distributed_system.Cass.Inbox.{claim_message}

abbrev some_row : {A : Type 0} → Option A → Bool
some_row none = false
some_row (some a) = true

-- The event is recorded as published, or it is listed as pending and has the state by which it can be
-- leased.
unfoldable pub is_tracked : ℕ → Tables → Bool
is_tracked id t = elim (lookup id t.outbox_events) [
  | none ↦ false
  | some row ↦ elim row.publish_state [
    | published ↦ true
    | pending ↦
        some_row (lookup (pending, (row.occurred_at, id)) t.outbox_by_state)
        && some_row (lookup id t.outbox_retry_state)
  ]
]

module _ {K V : Type 0} ⦃k : Key K⦄ where
  some_row-insert :
      (a b : K) (v : V) (m : Map K V)
      → some_row (lookup b m) ≡ true
      → some_row (lookup b (insert a v m)) ≡ true
  some_row-insert a b v m h = elim (Bool-cases (k.beq a b)) [
    | inl same ↦ rw (lookup-insert a b v m, same) refl
    | inr other ↦ rw (lookup-insert_other a b v m other) h
  ]

is_tracked-published :
    (id : ℕ) (row : OutboxRow) (t : Tables)
    → lookup id t.outbox_events ≡ some row
    → row.publish_state ≡ published
    → is_tracked id t ≡ true
unfolding is_tracked
is_tracked-published id row t e state = ground (arith, e, state)

is_tracked-pending :
    (id : ℕ) (row : OutboxRow) (m : Message) (r : RetryRow) (t : Tables)
    → lookup id t.outbox_events ≡ some row
    → row.publish_state ≡ pending
    → lookup (pending, (row.occurred_at, id)) t.outbox_by_state ≡ some m
    → lookup id t.outbox_retry_state ≡ some r
    → is_tracked id t ≡ true
unfolding is_tracked
is_tracked-pending id row m r t e state listed state_of = ground (arith, e, state, listed, state_of)

-- What keeps the event's row, and does not take it from the list or from the retries, keeps it
-- tracked.
is_tracked_mono :
    (id : ℕ) (t t' : Tables)
    → lookup id t'.outbox_events ≡ lookup id t.outbox_events
    → ((at : ℕ)
        → some_row (lookup (pending, (at, id)) t.outbox_by_state) ≡ true
        → some_row (lookup (pending, (at, id)) t'.outbox_by_state) ≡ true)
    → (some_row (lookup id t.outbox_retry_state) ≡ true
        → some_row (lookup id t'.outbox_retry_state) ≡ true)
    → is_tracked id t ≡ true
    → is_tracked id t' ≡ true
unfolding is_tracked
is_tracked_mono id t t' same listed leased h = elim (Option-cases (lookup id t.outbox_events)) [
  | inl e ↦ absurd (ground (arith, h, e))
  | inr (row, e) ↦ ground (arith, h, e, same, listed row.occurred_at, leased)
]

pub publish_batch-is_tracked :
    (id e at now : ℕ) (broker_id : Text) (t : Tables)
    → is_tracked id t ≡ true
    → is_tracked id (publish_batch e at now broker_id t) ≡ true
unfolding publish_batch
publish_batch-is_tracked id e at now broker_id t h = elim (Bool-cases (nat_eq e id)) [
  | inl same ↦
      subst (λ e. is_tracked id (publish_batch e at now broker_id t) ≡ true)
        (sym ((nat_eq_iff e id).0 same))
        (is_tracked-published id _ (publish_batch id at now broker_id t)
          (lookup-insert_self id _ t.outbox_events) refl)
  | inr other ↦
      is_tracked_mono id t (publish_batch e at now broker_id t)
        (lookup-insert_other e id _ t.outbox_events other)
        (λ at' h.
          rw
            (lookup-delete_other (pending, (at, e)) (pending, (at', id)) t.outbox_by_state
              (ground (arith, other)))
            h)
        (λ h. rw (lookup-delete_other e id t.outbox_retry_state other) h) h
]

pub replay_batch-is_tracked :
    (id e : ℕ) (d : DeadRow) (at now : ℕ) (t : Tables)
    → is_tracked id t ≡ true
    → is_tracked id (replay_batch e d at now t) ≡ true
unfolding replay_batch
replay_batch-is_tracked id e d at now t h = elim (Bool-cases (nat_eq e id)) [
  | inl same ↦
      subst (λ e. is_tracked id (replay_batch e d at now t) ≡ true) (sym ((nat_eq_iff e id).0 same))
        (is_tracked-pending id _ _ _ (replay_batch id d at now t)
          (lookup-insert_self id _ t.outbox_events) refl
          (lookup-insert_self (pending, (at, id)) _ t.outbox_by_state)
          (lookup-insert_self id _ t.outbox_retry_state))
  | inr other ↦
      is_tracked_mono id t (replay_batch e d at now t)
        (lookup-insert_other e id _ t.outbox_events other)
        (λ at'. some_row-insert (pending, (at, e)) (pending, (at', id)) _ t.outbox_by_state)
        (some_row-insert e id _ t.outbox_retry_state) h
]

pub insert_event-is_tracked :
    (id : ℕ) (event : EventRecord) (t : Tables) → is_tracked id (insert_event id event t) ≡ true
unfolding insert_event
insert_event-is_tracked id event t =
    is_tracked-pending id _ _ _ (insert_event id event t) (lookup-insert_self id _ t.outbox_events)
      refl (lookup-insert_self (pending, (event.occurred_at, id)) _ t.outbox_by_state)
      (lookup-insert_self id _ t.outbox_retry_state)

pub insert_event-keeps_tracked :
    (id e : ℕ) (event : EventRecord) (t : Tables)
    → is_tracked id t ≡ true
    → is_tracked id (insert_event e event t) ≡ true
unfolding insert_event
insert_event-keeps_tracked id e event t h = elim (Bool-cases (nat_eq e id)) [
  | inl same ↦
      subst (λ e. is_tracked id (insert_event e event t) ≡ true) (sym ((nat_eq_iff e id).0 same))
        (insert_event-is_tracked id event t)
  | inr other ↦
      is_tracked_mono id t (insert_event e event t)
        (lookup-insert_other e id _ t.outbox_events other)
        (λ at.
          some_row-insert (pending, (event.occurred_at, e)) (pending, (at, id)) _ t.outbox_by_state)
        (some_row-insert e id _ t.outbox_retry_state) h
]

pub claim_lease-is_tracked :
    (id e : ℕ) (owner : Text) (till now : ℕ) (t : Tables)
    → is_tracked id t ≡ true
    → is_tracked id (claim_lease e owner till now t).1 ≡ true
unfolding claim_lease
claim_lease-is_tracked id e owner till now t h =
    elim (Option-cases (lookup e t.outbox_retry_state)) [
      | inl gone ↦ rw (gone, claim_lease) h
      | inr (row, is) ↦
          rw (is, claim_lease)
            (elim (Bool-cases (ltb row.lease_until now)) [
              | inr held ↦ rw held h
              | inl free ↦ rw free (
                  is_tracked_mono id t _ refl (λ at h. h)
                    (some_row-insert e id _ t.outbox_retry_state) h)
            ])
    ]

pub update_failed-is_tracked :
    (id e n next : ℕ) (x : Text) (q : Bool) (now first : ℕ) (t : Tables)
    → is_tracked id t ≡ true
    → is_tracked id (update_failed e n next x q now first t) ≡ true
unfolding update_failed
update_failed-is_tracked id e n next x q now first t =
    is_tracked_mono id t _ refl (λ at h. h) (some_row-insert e id _ t.outbox_retry_state)

pub claim_message-is_tracked :
    (id : ℕ) (k : Text × Text) (now : ℕ) (t : Tables)
    → is_tracked id t ≡ true
    → is_tracked id (claim_message k now t).1 ≡ true
unfolding claim_message is_tracked
claim_message-is_tracked id k now t h = ground arith

pub claim_key-is_tracked :
    (id : ℕ) (k : Text × Text) (row : IdempotencyRow) (t : Tables)
    → is_tracked id t ≡ true
    → is_tracked id (claim_key k row t).1 ≡ true
unfolding claim_key is_tracked
claim_key-is_tracked id k row t h = ground arith
