-- ===== src/Cass/Outbox/Tracked.antt =====
-- No event falls out of the outbox (internal/modules/cassstore/module.go).
use shiro_distributed_system.Common.{
  ℕ, ◌≡◌, inl, inr, true, false, List, Text, arith, nat_key, nat_eq, nat_eq_iff, Bool-cases, subst,
  sym, ap, ◌∙◌,
}
use shiro_distributed_system.Common.Assoc.{lookup-insert_other}
use shiro_distributed_system.Contracts.{EventRecord}
use shiro_distributed_system.Cass.Tables.{Tables, IdempotencyRow, outbox_key, time_key}
use shiro_distributed_system.Cass.Driver.{Cassandra, IsLawful}
use shiro_distributed_system.Cass.Append.{claim_key, insert_created, insert_event}
use shiro_distributed_system.Cass.Append.Durable.{found, row_of, is_written}
use shiro_distributed_system.Cass.Outbox.{
  publish_batch, claim_lease, update_failed, insert_dead_letter,
}
use shiro_distributed_system.Cass.DeadLetters.{replay_batch}
use shiro_distributed_system.Cass.Inbox.{claim_message}
use shiro_distributed_system.Cass.Cleanup.{forget_key, drop_dead_letter}
use shiro_distributed_system.Cass.Calls.Kept.{IsKept, Any}
use shiro_distributed_system.Cass.Calls.Cleaned.{StoreCall, run_any, run_any-keeps_all}
use shiro_distributed_system.Cass.Outbox.Tracking.{
  is_tracked, publish_batch-is_tracked, replay_batch-is_tracked, insert_event-is_tracked,
  insert_event-keeps_tracked, claim_lease-is_tracked, update_failed-is_tracked,
  claim_message-is_tracked, claim_key-is_tracked,
}

insert_event-unwritten :
    (id e : ℕ) (event : EventRecord) (t : Tables)
    → nat_eq e id ≡ false
    → is_written id (insert_event e event t) ≡ is_written id t
unfolding insert_event is_written
insert_event-unwritten id e event t other =
    ap found (lookup-insert_other e id (row_of event) t.events_by_id other)

claim_key-written :
    (id : ℕ) (k : Text × Text) (row : IdempotencyRow) (t : Tables)
    → is_written id (claim_key k row t).1 ≡ is_written id t
unfolding claim_key is_written
claim_key-written id k row t = ground arith

claim_lease-written :
    (id e : ℕ) (owner : Text) (till now : ℕ) (t : Tables)
    → is_written id (claim_lease e owner till now t).1 ≡ is_written id t
unfolding claim_lease is_written
claim_lease-written id e owner till now t = ground arith

claim_message-written :
    (id : ℕ) (k : Text × Text) (now : ℕ) (t : Tables)
    → is_written id (claim_message k now t).1 ≡ is_written id t
unfolding claim_message is_written
claim_message-written id k now t = ground arith

-- The event is tracked if it is written at all.
abbrev pub IsTracked : ℕ → Tables → Type 0
IsTracked id t = is_written id t ≡ true → is_tracked id t ≡ true

insert_event-IsTracked :
    (id e : ℕ) (event : EventRecord) (t : Tables)
    → IsTracked id t
    → IsTracked id (insert_event e event t)
insert_event-IsTracked id e event t h w = elim (Bool-cases (nat_eq e id)) [
  | inl same ↦
      subst (λ e. is_tracked id (insert_event e event t) ≡ true) (sym ((nat_eq_iff e id).0 same))
        (insert_event-is_tracked id event t)
  | inr other ↦
      insert_event-keeps_tracked id e event t
        (h (sym (insert_event-unwritten id e event t other) ∙ w))
]

IsTracked-IsKept : (id : ℕ) → IsKept (IsTracked id) Any Any
unfolding is_tracked is_written
IsTracked-IsKept id = record {
  claim_key_keeps =
      λ k row t _ h w. claim_key-is_tracked id k row t (h (sym (claim_key-written id k row t) ∙ w));
  insert_created_keeps = λ k at new t _ h. unfold insert_created in h;
  insert_event_keeps = λ new e t _ h. insert_event-IsTracked id new e t h;
  publish_batch_keeps =
      λ e at now b t h w. publish_batch-is_tracked id e at now b t (h (unfold publish_batch in w));
  claim_lease_keeps = λ e owner till now t h w.
      claim_lease-is_tracked id e owner till now t
        (h (sym (claim_lease-written id e owner till now t) ∙ w));
  update_failed_keeps = λ e n next x q now first t h w.
      update_failed-is_tracked id e n next x q now first t (h (unfold update_failed in w));
  insert_dead_letter_keeps = λ e row t h. unfold insert_dead_letter in h;
  replay_batch_keeps =
      λ e d at now t h w. replay_batch-is_tracked id e d at now t (h (unfold replay_batch in w));
  claim_message_keeps = λ k now t h w.
      claim_message-is_tracked id k now t (h (sym (claim_message-written id k now t) ∙ w));
}

-- No event falls out of the outbox: if, before any calls of the store, an event that is written is
-- recorded as published, or is listed as pending with the state by which the relay leases it, then so
-- it is after the calls, those of the cleanup included, by anyone, in any order and whether they
-- succeed or fail; an event that the calls themselves write is no exception.
pub run_any-is_tracked :
    (c : Cassandra) (lawful : IsLawful c) (id : ℕ) (calls : List StoreCall) (db : c.Db)
    → (is_written id (c.tables db) ≡ true → is_tracked id (c.tables db) ≡ true)
    → is_written id (c.tables (run_any c calls db)) ≡ true
    → is_tracked id (c.tables (run_any c calls db)) ≡ true
unfolding is_tracked is_written forget_key drop_dead_letter
run_any-is_tracked c lawful id =
    run_any-keeps_all c lawful (IsTracked id) (IsTracked-IsKept id) (λ k t h. h) (λ k t h. h)
