-- ===== src/Cass/Cleanup/Young.antt =====
-- A key that is not older than the limit of the cleanup (internal/modules/cassstore/module.go).
use shiro_distributed_system.Common.{
  ℕ, ◌≤◌, ◌≡◌, true, false, not, ◌||◌, some, List, [], ◌∷◌, Text, ℤ, subst, arith, All, leb,
  nat_key,
}
use shiro_distributed_system.Common.Assoc.{Map, All-insert, All-delete}
use shiro_distributed_system.Cass.Tables.{Tables, IdempotencyRow, text_pair_key, created_key}
use shiro_distributed_system.Cass.Driver.{Cassandra, IsLawful, Module}
use shiro_distributed_system.Cass.Append.{insert_created, insert_event, claim_key}
use shiro_distributed_system.Cass.Append.Keys.{holder}
use shiro_distributed_system.Cass.Append.Once.{holder-IsKept}
use shiro_distributed_system.Cass.Outbox.{
  publish_batch, claim_lease, update_failed, insert_dead_letter,
}
use shiro_distributed_system.Cass.DeadLetters.{replay_batch}
use shiro_distributed_system.Cass.Inbox.{claim_message}
use shiro_distributed_system.Cass.Calls.Kept.{IsKept, Any}
use shiro_distributed_system.Cass.Calls.Cleaned.{StoreCall, run_any, IsAllowed, run_any-keeps}
use shiro_distributed_system.Cass.Cleanup.{forget_key, drop_dead_letter, cleanup_expired}
use shiro_distributed_system.Cass.Cleanup.Preserve.{cleanup_expired-keeps_expired}
use shiro_distributed_system.Cass.Cleanup.Expiry.{is_for, IsYoung, forget_key-holder, expired-other}

-- The index of creation times dates the key at `start` at the earliest.
abbrev pub IsDated : Text × Text → ℕ → Tables → Type 0
IsDated key start t = IsYoung key start t.idempotency_by_created

insert_created-IsDated :
    (key k : Text × Text) (start at id : ℕ) (t : Tables)
    → start ≤ at
    → IsDated key start t
    → IsDated key start (insert_created k at id t)
unfolding insert_created
insert_created-IsDated key k start at id t late h =
    All-insert (λ r. (not (is_for key r.0) || leb start r.0.0) ≡ true) (at, k) id
      t.idempotency_by_created (ground arith) h

claim_key-by_created :
    (k : Text × Text) (row : IdempotencyRow) (t : Tables)
    → t.idempotency_by_created ≡ (claim_key k row t).1.idempotency_by_created
unfolding claim_key
claim_key-by_created k row t = ground arith

claim_lease-by_created :
    (e : ℕ) (owner : Text) (till now : ℕ) (t : Tables)
    → t.idempotency_by_created ≡ (claim_lease e owner till now t).1.idempotency_by_created
unfolding claim_lease
claim_lease-by_created e owner till now t = ground arith

claim_message-by_created :
    (k : Text × Text) (now : ℕ) (t : Tables)
    → t.idempotency_by_created ≡ (claim_message k now t).1.idempotency_by_created
unfolding claim_message
claim_message-by_created k now t = ground arith

-- Calls that index keys at `start` or later date no key earlier.
pub IsDated-IsKept :
    (key : Text × Text) (start : ℕ) → IsKept (IsDated key start) Any (λ at. start ≤ at)
IsDated-IsKept key start = record {
  claim_key_keeps = λ k row t _ h. subst (IsYoung key start) (claim_key-by_created k row t) h;
  insert_created_keeps = λ k at id t late h. insert_created-IsDated key k start at id t late h;
  insert_event_keeps = λ new e t _ h. unfold insert_event in h;
  publish_batch_keeps = λ e at now b t h. unfold publish_batch in h;
  claim_lease_keeps = λ e owner till now t h.
      subst (IsYoung key start) (claim_lease-by_created e owner till now t) h;
  update_failed_keeps = λ e n next x q now first t h. unfold update_failed in h;
  insert_dead_letter_keeps = λ e row t h. unfold insert_dead_letter in h;
  replay_batch_keeps = λ e d at now t h. unfold replay_batch in h;
  claim_message_keeps = λ k now t h. subst (IsYoung key start) (claim_message-by_created k now t) h;
}

-- The event holds the key, and no cleanup up to `start` will forget it.
abbrev pub IsProtected : Text × Text → ℕ → ℕ → Tables → Type 0
IsProtected key id start t = (holder key t ≡ some id) × IsDated key start t

IsProtected-IsKept :
    (key : Text × Text) (id start : ℕ) → IsKept (IsProtected key id start) Any (λ at. start ≤ at)
IsProtected-IsKept key id start =
    let held = holder-IsKept key id in
    let dated = IsDated-IsKept key start in
    record {
      claim_key_keeps =
          λ k row t f h. (held.claim_key_keeps k row t f h.0, dated.claim_key_keeps k row t f h.1);
      insert_created_keeps = λ k at new t late h. (
        held.insert_created_keeps k at new t tt h.0,
        dated.insert_created_keeps k at new t late h.1,
      );
      insert_event_keeps = λ new e t f h.
          (held.insert_event_keeps new e t f h.0, dated.insert_event_keeps new e t f h.1);
      publish_batch_keeps = λ e at now b t h.
          (held.publish_batch_keeps e at now b t h.0, dated.publish_batch_keeps e at now b t h.1);
      claim_lease_keeps = λ e owner till now t h. (
        held.claim_lease_keeps e owner till now t h.0,
        dated.claim_lease_keeps e owner till now t h.1,
      );
      update_failed_keeps = λ e n next x q now first t h. (
        held.update_failed_keeps e n next x q now first t h.0,
        dated.update_failed_keeps e n next x q now first t h.1,
      );
      insert_dead_letter_keeps = λ e row t h.
          (held.insert_dead_letter_keeps e row t h.0, dated.insert_dead_letter_keeps e row t h.1);
      replay_batch_keeps = λ e d at now t h.
          (held.replay_batch_keeps e d at now t h.0, dated.replay_batch_keeps e d at now t h.1);
      claim_message_keeps = λ k now t h.
          (held.claim_message_keeps k now t h.0, dated.claim_message_keeps k now t h.1);
    }

-- What is no older than `start` is no older than an earlier time.
IsYoung-earlier :
    (key : Text × Text) (start before : ℕ) (rows : Map (ℕ × (Text × Text)) ℕ)
    → before ≤ start
    → IsYoung key start rows
    → IsYoung key before rows
IsYoung-earlier key start before [] e h = tt
IsYoung-earlier key start before (r ∷ rows) e h =
    (ground arith, IsYoung-earlier key start before rows e h.1)

forget_key-IsDated :
    (key : Text × Text) (start : ℕ) (row : ℕ × (Text × Text)) (t : Tables)
    → IsDated key start t
    → IsDated key start (forget_key row t)
unfolding forget_key
forget_key-IsDated key start row t h =
    All-delete (λ r. (not (is_for key r.0) || leb start r.0.0) ≡ true) row t.idempotency_by_created
      h

module _ (c : Cassandra) (lawful : IsLawful c) (key : Text × Text) (id start : ℕ) where
  open c use {Db, tables}

  keys_keep-IsProtected :
      (ks : List (ℕ × (Text × Text)))
      → All (λ k. is_for key k ≡ false) ks
      → All
          (λ k.
            (t : Tables) → IsProtected key id start t → IsProtected key id start (forget_key k t))
          ks
  keys_keep-IsProtected [] others = tt
  keys_keep-IsProtected (k ∷ ks) others = (
    λ t h. (forget_key-holder key id k t others.0 h.0, forget_key-IsDated key start k t h.1),
    keys_keep-IsProtected ks others.1,
  )

  drop_dead_letter-IsProtected :
      (k : ℕ × ℕ) (t : Tables)
      → IsProtected key id start t
      → IsProtected key id start (drop_dead_letter k t)
  unfolding drop_dead_letter holder
  drop_dead_letter-IsProtected k t h = h

  cleanup_expired-IsProtected :
      (m : Module) (keys_before letters_before : ℕ) (limit : ℤ) (db : Db)
      → keys_before ≤ start
      → IsProtected key id start (tables db)
      → IsProtected key id start
          (tables (cleanup_expired c m keys_before letters_before limit db).1)
  cleanup_expired-IsProtected m keys_before letters_before limit db early h =
      cleanup_expired-keeps_expired c lawful (IsProtected key id start) drop_dead_letter-IsProtected
        m keys_before letters_before limit db
        (keys_keep-IsProtected _ (
          expired-other key keys_before _ (tables db).idempotency_by_created
            (IsYoung-earlier key start keys_before _ early h.1)))
        h

  -- A protected key stays protected while appends index at `start` or later, and cleanups forget
  -- what is older than `start` at most.
  pub run_any-IsProtected :
      (some_calls : List StoreCall) (db : Db)
      → All (IsAllowed (λ at. start ≤ at) (λ before. before ≤ start)) some_calls
      → IsProtected key id start (tables db)
      → IsProtected key id start (tables (run_any c some_calls db))
  run_any-IsProtected =
      run_any-keeps c lawful (IsProtected key id start) Any (λ at. start ≤ at)
        (λ before. before ≤ start) (IsProtected-IsKept key id start) cleanup_expired-IsProtected
