-- ===== src/Cass/Append/Keys.antt =====
-- Who holds an idempotency key, and what an append under a held key does
-- (internal/modules/cassstore/module.go).
use shiro_distributed_system.Common.{
  ℕ, ◌≡◌, ◌⊎◌, inl, inr, refl, ap, ◌∙◌, true, false, Option, none, some, Text, arith, Result, ok,
  err, Result-cases, is_empty, nat_key, Bool-cases,
}
use shiro_distributed_system.Common.Assoc.{lookup}
use shiro_distributed_system.Contracts.{Error, EventRecord, AppendResult}
use shiro_distributed_system.Cass.Tables.{
  Tables, IdempotencyRow, text_pair_key, OutboxRow, EventRow,
}
use shiro_distributed_system.Cass.Driver.{Cassandra, IsLawful, Module, scan}
use shiro_distributed_system.Cass.Append.{
  claim_key, with_defaults, is_outbox_published, existing_event, append_claimed, append_keyed,
  append_event_exactly_once,
}

-- The event that a key stands for.
unfoldable pub holder : Text × Text → Tables → Option ℕ
holder key t = elim (lookup key t.idempotency_keys) [ none ↦ none | some row ↦ some row.event_id ]

-- A claim of a held key finds the holder and changes nothing.
pub claim_key-held :
    (key : Text × Text) (row : IdempotencyRow) (t : Tables) (id : ℕ)
    → holder key t ≡ some id
    → claim_key key row t ≡ (some id, t)
unfolding claim_key holder
claim_key-held key row t id h = ground arith

-- What a call may report about an event that was there before: nothing changed, and an error or the
-- event's identity with the mark of a duplicate.
abbrev pub IsDuplicateOf : (c : Cassandra) → ℕ → c.Db → Result Error AppendResult × c.Db → Type 0
IsDuplicateOf c id db r =
    (c.tables r.1 ≡ c.tables db)
    × (((e : Error) × (r.0 ≡ err e))
        ⊎ ((a : AppendResult) × (r.0 ≡ ok a)
            × (a.event.id ≡ c.uuid_string id)
            × (a.duplicate ≡ true)))

module _ (c : Cassandra) (lawful : IsLawful c) where
  open c use {Db, tables, query, execute}

  scan_keeps : (A : Type 0) (q : Tables → Option A) (db : Db) → tables (scan c A q db).1 ≡ tables db
  unfolding scan
  scan_keeps A q db = ground (arith, lawful.query_law (Option A) q db)

  is_outbox_published_keeps :
      (id : ℕ) (db : Db) → tables (is_outbox_published c id db).1 ≡ tables db
  unfolding is_outbox_published
  is_outbox_published_keeps id db =
      ground (arith, scan_keeps OutboxRow (λ t. lookup id t.outbox_events) db)

  pub existing_event-IsDuplicateOf :
      (key : Text) (id : ℕ) (db db' : Db)
      → tables db' ≡ tables db
      → IsDuplicateOf c id db (existing_event c key id db')
  unfolding existing_event
  existing_event-IsDuplicateOf key id db db' same =
      let find = λ (t : Tables). lookup id t.events_by_id in
      let found = scan c EventRow find db' in
      let kept = scan_keeps EventRow find db' ∙ same in
      elim (Result-cases found.0) [
        | inr (x, e) ↦ rw e (kept, inl (x, refl))
        | inl (row, e) ↦
            let kept' = is_outbox_published_keeps id found.1 ∙ kept in
            rw e (elim (Result-cases (is_outbox_published c id found.1).0) [
              | inr (x, e') ↦ rw e' (kept', inl (x, refl))
              | inl (done, e') ↦ rw e' (kept', inr (_, refl, refl, refl))
            ])
      ]

  append_keyed-held :
      (clock : ℕ → ℕ) (new_id : ℕ) (event : EventRecord) (id : ℕ) (db : Db)
      → is_empty event.idempotency_key ≡ false
      → holder (event.stream, event.idempotency_key) (tables db) ≡ some id
      → IsDuplicateOf c id db (append_keyed c clock new_id event db)
  unfolding append_keyed append_claimed
  append_keyed-held clock new_id event id db keyed held =
      let key : Text × Text = (event.stream, event.idempotency_key) in
      let row : IdempotencyRow = record {
        event_id = new_id;
        payload_hash = c.sha256_hex event.payload;
        created_at = clock 1;
      } in
      let claim = claim_key key row in
      let found = claim_key-held key row (tables db) id held in
      let unchanged = ap (λ p. p.1) found in
      rw keyed (elim (lawful.execute_law (Option ℕ) claim db) [
        | inl (e, done) ↦
            rw (e, ap (λ p. p.0) found)
              (existing_event-IsDuplicateOf event.idempotency_key id db _ (done ∙ unchanged))
        | inr (x, e, inl kept) ↦ rw e (kept, inl (x, refl))
        | inr (x, e, inr done) ↦ rw e (done ∙ unchanged, inl (x, refl))
      ])

  -- An append under a key that is held writes nothing, whatever event comes with it; it fails, or it
  -- reports the holder of the key as a duplicate.
  pub append-held :
      (m : Module) (clock : ℕ → ℕ) (new_id : ℕ) (event : EventRecord) (id : ℕ) (db : Db)
      → is_empty event.idempotency_key ≡ false
      → holder ((with_defaults (clock 0) event).stream, event.idempotency_key) (tables db) ≡ some id
      → IsDuplicateOf c id db (append_event_exactly_once c m clock new_id event db)
  unfolding append_event_exactly_once with_defaults
  append-held m clock new_id event id db keyed held = elim (Bool-cases m.session) [
    | inr off ↦ rw off (refl, inl (_, refl))
    | inl on ↦
        rw on (append_keyed-held clock new_id (with_defaults (clock 0) event) id db keyed held)
  ]
