-- ===== src/Cass/Cleanup.antt =====
-- `CleanupExpired` of internal/modules/cassstore/module.go.
pub mod Expiry
pub mod Once
pub mod Preserve
pub mod Young
use shiro_distributed_system.Common.{
  ℕ, suc, Option, none, some, List, [], ◌∷◌, Text, ℤ, pos, pos_part, leb_ℤ, ltb, nat_key, take,
  select, map, if◌then◌else◌, Result, ok, err,
}
use shiro_distributed_system.Common.Assoc.{delete}
use shiro_distributed_system.Contracts.{Error, session_not_available}
use shiro_distributed_system.Cass.Tables.{Tables, DeadRow, text_pair_key, created_key, time_key}
use shiro_distributed_system.Cass.Driver.{Cassandra, Module, write}

unfoldable pub cleanup_limit : ℤ → ℕ
cleanup_limit limit = if leb_ℤ limit (pos 0) then 200 else pos_part limit

-- The batch that forgets a key.
unfoldable pub forget_key : ℕ × (Text × Text) → Tables → Tables
forget_key row t = record t {
  idempotency_keys = delete row.1 t.idempotency_keys;
  idempotency_by_created = delete row t.idempotency_by_created;
}

-- The batch that drops a dead letter.
unfoldable pub drop_dead_letter : ℕ × ℕ → Tables → Tables
drop_dead_letter row t = record t {
  dead_letters_by_time = delete row t.dead_letters_by_time;
  dead_letters_by_id = delete row.1 t.dead_letters_by_id;
}

-- The first rows, those before a time among them.
unfoldable pub expired : {K V : Type 0} → (K → ℕ) → ℕ → ℕ → List (K × V) → List (K × V)
expired time before limit rows = select (λ r. ltb (time r.0) before) (take limit rows)

pub record CleanupReport : Type 0 where
  pub keys_deleted : ℕ
  pub letters_deleted : ℕ
  pub error : Option Error

module _ (c : Cassandra) where
  open c use {Db, query}

  abbrev add_success : Result Error (Unit {0}) → ℕ → ℕ
  add_success (ok _) n = suc n
  add_success (err _) n = n

  -- A batch for each row; one that fails is not counted, and the loop goes on.
  unfoldable pub delete_all : (K : Type 0) → (K → Tables → Tables) → List K → ℕ → Db → ℕ × Db
  delete_all K batch [] count db = (count, db)
  delete_all K batch (row ∷ rows) count db =
      let done = write c (batch row) db in delete_all K batch rows (add_success done.0 count) done.1

  -- The second half, after the keys are done.
  unfoldable pub cleanup_letters : ℕ → ℕ → ℕ × Db → CleanupReport × Db
  unfolding delete_all expired
  cleanup_letters before limit keys =
      let rows =
        query (List ((ℕ × ℕ) × DeadRow))
          (λ t. expired (λ k. k.0) before limit t.dead_letters_by_time) keys.1 in
      elim rows.0 [
        | err e ↦ (record { keys_deleted = keys.0; letters_deleted = 0; error = some e }, rows.1)
        | ok found ↦
            let letters = delete_all (ℕ × ℕ) drop_dead_letter (map (λ r. r.0) found) 0 rows.1 in
            (record { keys_deleted = keys.0; letters_deleted = letters.0; error = none }, letters.1)
      ]

  unfoldable pub cleanup_expired : Module → ℕ → ℕ → ℤ → Db → CleanupReport × Db
  unfolding cleanup_letters delete_all expired
  cleanup_expired m keys_before letters_before limit db =
      let most = cleanup_limit limit in
      let rows =
        query (List ((ℕ × (Text × Text)) × ℕ))
          (λ t. expired (λ k. k.0) keys_before most t.idempotency_by_created) db in
      if m.session
      then (elim rows.0 [
        | err e ↦ (record { keys_deleted = 0; letters_deleted = 0; error = some e }, rows.1)
        | ok found ↦
            cleanup_letters letters_before most
              (delete_all (ℕ × (Text × Text)) forget_key (map (λ r. r.0) found) 0 rows.1)
      ])
      else (
        record { keys_deleted = 0; letters_deleted = 0; error = some session_not_available },
        db,
      )
