-- ===== src/Cass/Calls/Appends.antt =====
-- An append keeps what its statements keep (internal/modules/cassstore/module.go).
use shiro_distributed_system.Common.{
  ℕ, inl, inr, Option, none, some, Text, Result, Bool-cases, nat_key, is_empty,
}
use shiro_distributed_system.Contracts.{Error, EventRecord, AppendResult}
use shiro_distributed_system.Cass.Tables.{Tables, OutboxRow, EventRow}
use shiro_distributed_system.Cass.Driver.{Cassandra, IsLawful}
use shiro_distributed_system.Cass.Append.{
  is_outbox_published, existing_event, append_new, append_claimed, append_keyed,
}
use shiro_distributed_system.Cass.Calls.Preserve.{
  Keeps, Keeps-execute, Keeps-return, Keeps-bind, Keeps-scan, Keeps-write,
}
use shiro_distributed_system.Cass.Calls.Kept.{IsKept}

module _ (c : Cassandra) (lawful : IsLawful c) (I : Tables → Type 0) (Fresh Timely : ℕ → Type 0)
    (k : IsKept I Fresh Timely) where
  open c use {Db, tables, query, execute}

  existing-Keeps :
      (key : Text) (id : ℕ) → Keeps c lawful I (Result Error AppendResult) (existing_event c key id)
  unfolding existing_event is_outbox_published
  existing-Keeps key id = Keeps-bind c lawful I _ _ (Keeps-scan c lawful I EventRow _) λ row.
      Keeps-bind c lawful I _ _
        (Keeps-bind c lawful I _ _ (Keeps-scan c lawful I OutboxRow _)
          (λ o. Keeps-return c lawful I _))
        (λ done. Keeps-return c lawful I _)

  append_new-Keeps :
      (id : ℕ) (event : EventRecord)
      → Fresh id
      → Keeps c lawful I (Result Error AppendResult) (append_new c id event)
  unfolding append_new
  append_new-Keeps id event fresh =
      Keeps-bind c lawful I _ _
        (Keeps-write c lawful I _ (λ t. k.insert_event_keeps id event t fresh))
        (λ _. Keeps-return c lawful I _)

  pub append_claimed-Keeps :
      (id created : ℕ) (event : EventRecord) (claimed : Option ℕ)
      → Fresh id
      → Timely created
      → Keeps c lawful I (Result Error AppendResult) (append_claimed c id created event claimed)
  unfolding append_claimed
  append_claimed-Keeps id created event (some old) fresh timely =
      existing-Keeps event.idempotency_key old
  append_claimed-Keeps id created event none fresh timely =
      Keeps-bind c lawful I _ _
        (Keeps-write c lawful I _ (λ t. k.insert_created_keeps _ created id t timely))
        (λ _. append_new-Keeps id event fresh)

  pub append_keyed-Keeps :
      (clock : ℕ → ℕ) (id : ℕ) (event : EventRecord)
      → Fresh id
      → Timely (clock 2)
      → Keeps c lawful I (Result Error AppendResult) (append_keyed c clock id event)
  unfolding append_keyed
  append_keyed-Keeps clock id event fresh timely =
      elim (Bool-cases (is_empty event.idempotency_key)) [
        | inl bare ↦ rw bare (append_new-Keeps id event fresh)
        | inr keyed ↦ rw keyed (
            Keeps-bind c lawful I _ _
              (Keeps-execute c lawful I (Option ℕ) _ (λ t. k.claim_key_keeps _ _ t fresh))
              (λ claimed. append_claimed-Keeps id (clock 2) event claimed fresh timely))
      ]
