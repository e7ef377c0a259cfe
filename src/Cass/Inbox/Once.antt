-- ===== src/Cass/Inbox/Once.antt =====
-- A message is claimed once for each consumer (internal/modules/cassstore/module.go).
use shiro_distributed_system.Common.{
  ℕ, ◌≡◌, ◌⊎◌, Bool, true, false, none, some, List, Text, arith, ok, err, nat_key, text_eq_iff,
}
use shiro_distributed_system.Common.Assoc.{lookup, lookup-insert, lookup-insert_self}
use shiro_distributed_system.Contracts.{Error}
use shiro_distributed_system.Cass.Tables.{Tables, IdempotencyRow, text_pair_key}
use shiro_distributed_system.Cass.Driver.{Cassandra, IsLawful, Module}
use shiro_distributed_system.Cass.Inbox.{claim_message, claim_inbox_message}
use shiro_distributed_system.Cass.Append.{claim_key, insert_created, insert_event}
use shiro_distributed_system.Cass.Outbox.{
  publish_batch, claim_lease, update_failed, insert_dead_letter,
}
use shiro_distributed_system.Cass.DeadLetters.{replay_batch}
use shiro_distributed_system.Cass.Calls.Kept.{IsKept, Any}
use shiro_distributed_system.Cass.Calls.Cleaned.{StoreCall, run_any, run_any-keeps_all}
use shiro_distributed_system.Cass.Cleanup.{forget_key, drop_dead_letter}

pub is_consumed : Text × Text → Tables → Bool
is_consumed key t = elim (lookup key t.inbox_consumed) [ none ↦ false | some _ ↦ true ]

claim_key-is_consumed :
    (key k : Text × Text) (row : IdempotencyRow) (t : Tables)
    → is_consumed key t ≡ true
    → is_consumed key (claim_key k row t).1 ≡ true
unfolding claim_key is_consumed
claim_key-is_consumed key k row t h = ground arith

claim_lease-is_consumed :
    (key : Text × Text) (e : ℕ) (owner : Text) (till now : ℕ) (t : Tables)
    → is_consumed key t ≡ true
    → is_consumed key (claim_lease e owner till now t).1 ≡ true
unfolding claim_lease is_consumed
claim_lease-is_consumed key e owner till now t h = ground arith

claim_message-keeps_consumed :
    (key k : Text × Text) (now : ℕ) (t : Tables)
    → is_consumed key t ≡ true
    → is_consumed key (claim_message k now t).1 ≡ true
unfolding claim_message is_consumed
claim_message-keeps_consumed key k now t h =
    ground (
      arith,
      lookup-insert k key now t.inbox_consumed,
      text_eq_iff k.0 key.0,
      text_eq_iff k.1 key.1,
    )

pub is_consumed-IsKept : (key : Text × Text) → IsKept (λ t. is_consumed key t ≡ true) Any Any
unfolding is_consumed
is_consumed-IsKept key = record {
  claim_key_keeps = λ k row t _ h. claim_key-is_consumed key k row t h;
  insert_created_keeps = λ k at new t _ h. unfold insert_created in h;
  insert_event_keeps = λ new e t _ h. unfold insert_event in h;
  publish_batch_keeps = λ e at now b t h. unfold publish_batch in h;
  claim_lease_keeps = λ e owner till now t h. claim_lease-is_consumed key e owner till now t h;
  update_failed_keeps = λ e n next x q now first t h. unfold update_failed in h;
  insert_dead_letter_keeps = λ e row t h. unfold insert_dead_letter in h;
  replay_batch_keeps = λ e d at now t h. unfold replay_batch in h;
  claim_message_keeps = λ k now t h. claim_message-keeps_consumed key k now t h;
}

claim_message-consumes :
    (key : Text × Text) (now : ℕ) (t : Tables) → is_consumed key (claim_message key now t).1 ≡ true
unfolding claim_message is_consumed
claim_message-consumes key now t = ground (arith, lookup-insert_self key now t.inbox_consumed)

claim_message-refuses :
    (key : Text × Text) (now : ℕ) (t : Tables)
    → is_consumed key t ≡ true
    → (claim_message key now t).0 ≡ false
unfolding claim_message is_consumed
claim_message-refuses key now t h = ground arith

module _ (c : Cassandra) (lawful : IsLawful c) where
  open c use {Db, tables}

  pub claim-consumes :
      (m : Module) (now : ℕ) (consumer message_id : Text) (db : Db) (b : Bool)
      → (claim_inbox_message c m now consumer message_id db).0 ≡ ok b
      → is_consumed
          (consumer, message_id)
          (tables (claim_inbox_message c m now consumer message_id db).1)
        ≡ true
  unfolding claim_inbox_message
  claim-consumes m now consumer message_id db b h = ground (
    arith,
    lawful.execute_law Bool (claim_message (consumer, message_id) now) db,
    claim_message-consumes (consumer, message_id) now (tables db),
  )

  pub claim-refuses :
      (m : Module) (now : ℕ) (consumer message_id : Text) (db : Db)
      → is_consumed (consumer, message_id) (tables db) ≡ true
      → ((claim_inbox_message c m now consumer message_id db).0 ≡ ok false)
        ⊎ ((e : Error) × ((claim_inbox_message c m now consumer message_id db).0 ≡ err e))
  unfolding claim_inbox_message
  claim-refuses m now consumer message_id db h = ground (
    arith,
    lawful.execute_law Bool (claim_message (consumer, message_id) now) db,
    claim_message-refuses (consumer, message_id) now (tables db) h,
  )

  -- No call takes back that a message is consumed.
  pub run_any-is_consumed :
      (key : Text × Text) (calls : List StoreCall) (db : Db)
      → is_consumed key (tables db) ≡ true
      → is_consumed key (tables (run_any c calls db)) ≡ true
  unfolding is_consumed forget_key drop_dead_letter
  run_any-is_consumed key =
      run_any-keeps_all c lawful (λ t. is_consumed key t ≡ true) (is_consumed-IsKept key)
        (λ k t h. h) (λ k t h. h)

  -- Once a claim of a message has returned without an error, no later claim of it for the same
  -- consumer is granted, whatever calls of the store come between, the cleanup included: it is refused,
  -- or it fails.
  pub claim-once :
      (m m' : Module) (now later : ℕ) (consumer message_id : Text) (calls : List StoreCall)
      (db : Db) (b : Bool)
      → (claim_inbox_message c m now consumer message_id db).0 ≡ ok b
      → let db' = run_any c calls (claim_inbox_message c m now consumer message_id db).1 in
        ((claim_inbox_message c m' later consumer message_id db').0 ≡ ok false)
        ⊎ ((e : Error) × ((claim_inbox_message c m' later consumer message_id db').0 ≡ err e))
  claim-once m m' now later consumer message_id calls db b h =
      let first = claim_inbox_message c m now consumer message_id db in
      let key : Text × Text = (consumer, message_id) in
      claim-refuses m' later consumer message_id (run_any c calls first.1)
        (run_any-is_consumed key calls first.1 (claim-consumes m now consumer message_id db b h))
