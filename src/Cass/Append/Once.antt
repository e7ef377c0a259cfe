-- ===== src/Cass/Append/Once.antt =====
-- An idempotency key stands for one event, through any calls that follow
-- (internal/modules/cassstore/module.go).
use shiro_distributed_system.Common.{
  ℕ, ◌≡◌, inl, inr, refl, sym, subst, false, Option, none, some, Text, arith, ok, is_empty, nat_key,
  Bool-cases, text_eq_iff,
}
use shiro_distributed_system.Common.Assoc.{lookup-insert, lookup-insert_self}
use shiro_distributed_system.Contracts.{EventRecord, AppendResult}
use shiro_distributed_system.Cass.Tables.{Tables, IdempotencyRow, text_pair_key}
use shiro_distributed_system.Cass.Driver.{Cassandra, IsLawful, Module, write}
use shiro_distributed_system.Cass.Append.Keys.{holder, existing_event-IsDuplicateOf}
use shiro_distributed_system.Cass.Append.{
  claim_key, insert_created, insert_event, with_defaults, append_new, append_claimed, append_keyed,
  append_event_exactly_once,
}
use shiro_distributed_system.Cass.Outbox.{
  publish_batch, claim_lease, update_failed, insert_dead_letter,
}
use shiro_distributed_system.Cass.DeadLetters.{replay_batch}
use shiro_distributed_system.Cass.Inbox.{claim_message}
use shiro_distributed_system.Cass.Calls.Kept.{IsKept, Any}
use shiro_distributed_system.Cass.Calls.Appends.{append_claimed-Keeps}

claim_key-keeps_holder :
    (key k : Text × Text) (row : IdempotencyRow) (t : Tables) (id : ℕ)
    → holder key t ≡ some id
    → holder key (claim_key k row t).1 ≡ some id
unfolding claim_key holder
claim_key-keeps_holder key k row t id h = ground (
  arith,
  lookup-insert k key row t.idempotency_keys,
  text_eq_iff k.0 key.0,
  text_eq_iff k.1 key.1,
)

claim_lease-holder :
    (key : Text × Text) (id e : ℕ) (owner : Text) (till now : ℕ) (t : Tables)
    → holder key t ≡ some id
    → holder key (claim_lease e owner till now t).1 ≡ some id
unfolding claim_lease holder
claim_lease-holder key id e owner till now t h = ground arith

claim_message-holder :
    (key : Text × Text) (id : ℕ) (k : Text × Text) (now : ℕ) (t : Tables)
    → holder key t ≡ some id
    → holder key (claim_message k now t).1 ≡ some id
unfolding claim_message holder
claim_message-holder key id k now t h = ground arith

-- No statement of the calls takes a key from its holder.
pub holder-IsKept : (key : Text × Text) (id : ℕ) → IsKept (λ t. holder key t ≡ some id) Any Any
unfolding holder
holder-IsKept key id = record {
  claim_key_keeps = λ k row t _ h. claim_key-keeps_holder key k row t id h;
  insert_created_keeps = λ k at new t _ h. unfold insert_created in h;
  insert_event_keeps = λ new e t _ h. unfold insert_event in h;
  publish_batch_keeps = λ e at now b t h. unfold publish_batch in h;
  claim_lease_keeps = λ e owner till now t h. claim_lease-holder key id e owner till now t h;
  update_failed_keeps = λ e n next x q now first t h. unfold update_failed in h;
  insert_dead_letter_keeps = λ e row t h. unfold insert_dead_letter in h;
  replay_batch_keeps = λ e d at now t h. unfold replay_batch in h;
  claim_message_keeps = λ k now t h. claim_message-holder key id k now t h;
}

-- A claim leaves the key with the event that it reports, or with the new one.
abbrev owner_of : ℕ → Option ℕ → ℕ
owner_of new none = new
owner_of new (some old) = old

claim_key-holds :
    (key : Text × Text) (row : IdempotencyRow) (t : Tables)
    → holder key (claim_key key row t).1 ≡ some (owner_of row.event_id (claim_key key row t).0)
unfolding claim_key holder
claim_key-holds key row t = ground (arith, lookup-insert_self key row t.idempotency_keys)

module _ (c : Cassandra) (lawful : IsLawful c) where
  open c use {Db, tables, execute, uuid_string}

  append_new-id :
      (id : ℕ) (event : EventRecord) (db : Db) (a : AppendResult)
      → (append_new c id event db).0 ≡ ok a
      → a.event.id ≡ uuid_string id
  unfolding append_new
  append_new-id id event db a h = ground arith

  append_claimed-id :
      (id created : ℕ) (event : EventRecord) (claimed : Option ℕ) (db : Db) (a : AppendResult)
      → (append_claimed c id created event claimed db).0 ≡ ok a
      → a.event.id ≡ uuid_string (owner_of id claimed)
  unfolding append_claimed
  append_claimed-id id created event (some old) db a h =
      ground (arith, existing_event-IsDuplicateOf c lawful event.idempotency_key old db db refl)
  append_claimed-id id created event none db a h =
      let first = write c (insert_created (event.stream, event.idempotency_key) created id) db in
      ground (arith, append_new-id id event first.1 a)

  append_keyed-holder :
      (clock : ℕ → ℕ) (id : ℕ) (event : EventRecord) (db : Db) (a : AppendResult)
      → is_empty event.idempotency_key ≡ false
      → (append_keyed c clock id event db).0 ≡ ok a
      → (h : ℕ) × (holder
            (event.stream, event.idempotency_key)
            (tables (append_keyed c clock id event db).1)
          ≡ some h)
        × (a.event.id ≡ uuid_string h)
  unfolding append_keyed
  append_keyed-holder clock id event db a keyed h =
      let key : Text × Text = (event.stream, event.idempotency_key) in
      let row : IdempotencyRow = record {
        event_id = id;
        payload_hash = c.sha256_hex event.payload;
        created_at = clock 1;
      } in
      let claim = claim_key key row in
      let claimed = execute (Option ℕ) claim db in
      let got = (claim (tables db)).0 in
      let owner = owner_of id got in
      elim (lawful.execute_law (Option ℕ) claim db) [
        | inr (x, e, _) ↦ ground arith
        | inl (e, done) ↦
            let held =
              subst (λ t. holder key t ≡ some owner) (sym done)
                (claim_key-holds key row (tables db)) in
            let kept =
              (append_claimed-Keeps c lawful (λ t. holder key t ≡ some owner) Any Any
                  (holder-IsKept key owner) id (clock 2) event got tt tt).at
                claimed.1 held in
            let rest = rw (keyed, e) at h in
            (owner, rw (keyed, e) kept, append_claimed-id id (clock 2) event got claimed.1 a rest)
      ]

  pub append-holder :
      (m : Module) (clock : ℕ → ℕ) (id : ℕ) (event : EventRecord) (db : Db) (a : AppendResult)
      → is_empty event.idempotency_key ≡ false
      → (append_event_exactly_once c m clock id event db).0 ≡ ok a
      → (h : ℕ) × (holder
            ((with_defaults (clock 0) event).stream, event.idempotency_key)
            (tables (append_event_exactly_once c m clock id event db).1)
          ≡ some h)
        × (a.event.id ≡ uuid_string h)
  unfolding append_event_exactly_once with_defaults
  append-holder m clock id event db a keyed h = elim (Bool-cases m.session) [
    | inr off ↦ absurd (ground arith)
    | inl on ↦
        rw on (append_keyed-holder clock id (with_defaults (clock 0) event) db a keyed (rw on at h))
  ]
