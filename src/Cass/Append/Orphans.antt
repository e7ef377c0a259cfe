-- ===== src/Cass/Append/Orphans.antt =====
-- A key whose event was never written (internal/modules/cassstore/module.go).
use shiro_distributed_system.Common.{
  ℕ, ◌≡◌, inl, inr, refl, ap, ◌∙◌, false, none, some, Text, err, Option, is_empty, nat_key,
  Bool-cases,
}
use shiro_distributed_system.Common.Assoc.{lookup}
use shiro_distributed_system.Contracts.{Error, EventRecord}
use shiro_distributed_system.Cass.Tables.{IdempotencyRow, EventRow}
use shiro_distributed_system.Cass.Driver.{Cassandra, IsLawful, Module, scan}
use shiro_distributed_system.Cass.Append.Keys.{holder, claim_key-held}
use shiro_distributed_system.Cass.Append.{
  claim_key, with_defaults, existing_event, append_claimed, append_keyed, append_event_exactly_once,
}

module _ (c : Cassandra) (lawful : IsLawful c) where
  open c use {Db, tables, execute}

  existing_event-missing :
      (key : Text) (id : ℕ) (db : Db)
      → lookup id (tables db).events_by_id ≡ none
      → (e : Error) × ((existing_event c key id db).0 ≡ err e)
  unfolding existing_event scan
  existing_event-missing key id db h =
      elim (lawful.query_law (Option EventRow) (λ t. lookup id t.events_by_id) db).1 [
        | inl e ↦ rw (e, h) (_, refl)
        | inr (x, e) ↦ rw e (x, refl)
      ]

  append_keyed-orphan :
      (clock : ℕ → ℕ) (new_id : ℕ) (event : EventRecord) (id : ℕ) (db : Db)
      → is_empty event.idempotency_key ≡ false
      → holder (event.stream, event.idempotency_key) (tables db) ≡ some id
      → lookup id (tables db).events_by_id ≡ none
      → (e : Error) × ((append_keyed c clock new_id event db).0 ≡ err e)
  unfolding append_keyed append_claimed
  append_keyed-orphan clock new_id event id db keyed held missing =
      let key : Text × Text = (event.stream, event.idempotency_key) in
      let row : IdempotencyRow = record {
        event_id = new_id;
        payload_hash = c.sha256_hex event.payload;
        created_at = clock 1;
      } in
      let claim = claim_key key row in
      let found = claim_key-held key row (tables db) id held in
      elim (lawful.execute_law (Option ℕ) claim db) [
        | inr (x, e, _) ↦ rw (keyed, e) (x, refl)
        | inl (e, done) ↦
            let same = done ∙ ap (λ p. p.1) found in
            rw (keyed, e, ap (λ p. p.0) found)
              (existing_event-missing event.idempotency_key id _
                (ap (λ t. lookup id t.events_by_id) same ∙ missing))
      ]

  -- The gap between the claim of a key and the batch that writes the event: if the key is held by an
  -- event that is not in the table of events, as a failure between the two leaves it, every append
  -- under the key fails, whatever event it brings.
  pub append-orphan :
      (m : Module) (clock : ℕ → ℕ) (new_id : ℕ) (event : EventRecord) (id : ℕ) (db : Db)
      → is_empty event.idempotency_key ≡ false
      → holder ((with_defaults (clock 0) event).stream, event.idempotency_key) (tables db) ≡ some id
      → lookup id (tables db).events_by_id ≡ none
      → (e : Error) × ((append_event_exactly_once c m clock new_id event db).0 ≡ err e)
  unfolding append_event_exactly_once with_defaults
  append-orphan m clock new_id event id db keyed held missing = elim (Bool-cases m.session) [
    | inr off ↦ rw off (_, refl)
    | inl on ↦
        rw on (
          append_keyed-orphan clock new_id (with_defaults (clock 0) event) id db keyed held missing)
  ]
