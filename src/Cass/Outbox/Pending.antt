-- ===== src/Cass/Outbox/Pending.antt =====
-- What the relay is given to do (internal/modules/cassstore/module.go).
use shiro_distributed_system.Common.{
  ℕ, zero, suc, ◌≤◌, ◌<◌, ◌≡◌, inl, inr, refl, sym, ap, ◌∙◌, true, Option, List, [], ◌∷◌, ◌++◌, ℤ,
  arith, ok, nat_key, leb, Bool-cases, length, take, if◌then◌else◌,
}
use mathlib.Core.List.{append_assoc, append-nil}
use shiro_distributed_system.Common.Assoc.{Map, lookup}
use shiro_distributed_system.Contracts.{EventRecord}
use shiro_distributed_system.Cass.Tables.{Tables, Message, PublishState, RetryRow}
use shiro_distributed_system.Cass.Driver.{Cassandra, IsLawful, IsReliable, Module}
use shiro_distributed_system.Cass.Outbox.{
  RetryState, retry_state_of, pending_limit, fetch_limit, pending_rows, is_due, load_retry_state,
  pending_record, pending_from, pending_outbox_events,
}

abbrev Rows : Type 0
Rows = Map (PublishState × (ℕ × ℕ)) Message

abbrev pub state_at : Tables → (PublishState × (ℕ × ℕ)) × Message → RetryState
state_at t row = retry_state_of (lookup row.0.1.1 t.outbox_retry_state)

-- The specification: the records of the rows that are due, in the order of the rows.
pub due_records : Cassandra → ℕ → Tables → Rows → List EventRecord
due_records c now t [] = []
due_records c now t (row ∷ rows) =
    if is_due now (state_at t row)
    then pending_record c row (state_at t row) ∷ due_records c now t rows
    else due_records c now t rows

take_short {ℓ} : {A : Type ℓ} (n : ℕ) (xs : List A) → length xs ≤ n → take n xs ≡ xs
take_short zero [] h = refl
take_short (suc n) [] h = refl
take_short zero (x ∷ xs) h = absurd (omega arith)
take_short (suc n) (x ∷ xs) h = ap (◌∷◌ x) (take_short n xs (omega arith))

-- One element more fills the limit.
take_full {ℓ} :
    {A : Type ℓ} (n : ℕ) (out : List A) (x : A) (rest : List A)
    → length out < n
    → n ≤ length (out ++ x ∷ [])
    → take n (out ++ x ∷ rest) ≡ out ++ x ∷ []
take_full zero out x rest h k = absurd (omega arith)
take_full (suc zero) [] x rest h k = refl
take_full (suc (suc n)) [] x rest h k = absurd (omega arith)
take_full (suc n) (y ∷ out) x rest h k =
    ap (◌∷◌ y) (take_full n out x rest (omega arith) (omega arith))

pending_limit_pos : (limit : ℤ) → 1 ≤ pending_limit limit
unfolding pending_limit
pending_limit_pos limit = ground arith

module _ (c : Cassandra) (lawful : IsLawful c) (reliable : IsReliable c) where
  open c use {Db, tables}

  load_retry_state-value :
      (id : ℕ) (db : Db)
      → ((load_retry_state c id db).0
          ≡ ok (retry_state_of (lookup id (tables db).outbox_retry_state)))
        × (tables (load_retry_state c id db).1 ≡ tables db)
  unfolding load_retry_state
  load_retry_state-value id db =
      let find = λ (t : Tables). lookup id t.outbox_retry_state in
      ground (
        arith,
        reliable.query_ok (Option RetryRow) find db,
        lawful.query_law (Option RetryRow) find db,
      )

  -- The loop stops at the limit, with the rows that it would have kept.
  pending_from-value :
      (limit now : ℕ) (t : Tables) (rows : Rows) (out : List EventRecord) (db : Db)
      → length out < limit
      → tables db ≡ t
      → (pending_from c limit (λ _. now) rows out db).0
        ≡ ok (take limit (out ++ due_records c now t rows))
  unfolding pending_from due_records
  pending_from-value limit now t [] out db h same =
      ap ok (sym (rw append-nil (take_short limit out (omega arith))))
  pending_from-value limit now t (row ∷ rows) out db h same =
      let facts = load_retry_state-value row.0.1.1 db in
      let loaded = load_retry_state c row.0.1.1 db in
      let s = state_at t row in
      let found = facts.0 ∙ ap (λ u. ok (state_at u row)) same in
      let kept = facts.1 ∙ same in
      let r = pending_record c row s in
      let rest = due_records c now t rows in
      elim (Bool-cases (is_due now s)) [
        | inr later ↦ ground (arith, found, pending_from-value limit now t rows out loaded.1 h kept)
        | inl due ↦ elim (Bool-cases (leb limit (length (out ++ r ∷ [])))) [
          | inl full ↦ ground (arith, found, take_full limit out r rest h)
          | inr room ↦ ground (
            arith,
            found,
            pending_from-value limit now t rows (out ++ r ∷ []) loaded.1 (ground arith) kept,
            append_assoc out (r ∷ []) rest,
          )
        ]
      ]

  -- With a session that does not fail and a clock that stands, the events that are due come out in
  -- the order of the table: the first of them, up to the limit, among the rows that are fetched.
  pub pending_outbox_events-value :
      (m : Module) (now : ℕ) (limit : ℤ) (db : Db)
      → m.session ≡ true
      → (pending_outbox_events c m (λ _. now) limit db).0
        ≡ ok (
            take (pending_limit limit) (
              due_records c now
                (tables db)
                (pending_rows (fetch_limit (pending_limit limit)) (tables db))))
  unfolding pending_outbox_events
  pending_outbox_events-value m now limit db on =
      let most = pending_limit limit in
      let rows = pending_rows (fetch_limit most) in
      rw (on, reliable.query_ok Rows rows db)
        (pending_from-value most now (tables db) (rows (tables db)) [] _ (pending_limit_pos limit)
          (lawful.query_law Rows rows db).0)
