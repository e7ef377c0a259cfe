-- ===== src/Cass/Cleanup/Expiry.antt =====
-- What the cleanup leaves alone (internal/modules/cassstore/module.go).
use shiro_distributed_system.Common.{
  ℕ, zero, suc, ◌≡◌, inl, inr, Bool, true, false, not, ◌&&◌, ◌||◌, some, List, [], ◌∷◌, Text, ℤ,
  arith, Bool-cases, All, ltb, leb, map, text_eq, nat_key,
}
use shiro_distributed_system.Common.Assoc.{Map, lookup-delete}
use shiro_distributed_system.Cass.Tables.{Tables, text_pair_key, created_key, time_key}
use shiro_distributed_system.Cass.Driver.{Cassandra, IsLawful, Module}
use shiro_distributed_system.Cass.Append.Keys.{holder}
use shiro_distributed_system.Cass.Cleanup.{
  cleanup_limit, forget_key, drop_dead_letter, expired, cleanup_expired,
}
use shiro_distributed_system.Cass.Cleanup.Preserve.{cleanup_expired-keeps_expired}

abbrev pub is_for : Text × Text → ℕ × (Text × Text) → Bool
is_for key row = text_eq row.1.0 key.0 && text_eq row.1.1 key.1

-- No row of the index dates the key before the time.
abbrev pub IsYoung : Text × Text → ℕ → Map (ℕ × (Text × Text)) ℕ → Type 0
IsYoung key before rows = All (λ r. (not (is_for key r.0) || leb before r.0.0) ≡ true) rows

-- The rows that are given up are for other keys.
pub expired-other :
    (key : Text × Text) (before limit : ℕ) (rows : Map (ℕ × (Text × Text)) ℕ)
    → IsYoung key before rows
    → All (λ k. is_for key k ≡ false) (map (λ r. r.0) (expired (λ k. k.0) before limit rows))
unfolding expired
expired-other key before zero rows h = tt
expired-other key before (suc n) [] h = tt
expired-other key before (suc n) (r ∷ rows) h = elim (Bool-cases (ltb r.0.0 before)) [
  | inl old ↦ rw old (ground arith, expired-other key before n rows h.1)
  | inr young ↦ rw young (expired-other key before n rows h.1)
]

pub forget_key-holder :
    (key : Text × Text) (id : ℕ) (row : ℕ × (Text × Text)) (t : Tables)
    → is_for key row ≡ false
    → holder key t ≡ some id
    → holder key (forget_key row t) ≡ some id
unfolding forget_key holder
forget_key-holder key id row t other h = ground (arith, lookup-delete row.1 key t.idempotency_keys)

module _ (c : Cassandra) (lawful : IsLawful c) (key : Text × Text) (id : ℕ) where
  open c use {Db, tables}

  abbrev Held : Tables → Type 0
  Held t = holder key t ≡ some id

  drop_dead_letter-holder : (k : ℕ × ℕ) (t : Tables) → Held t → Held (drop_dead_letter k t)
  unfolding drop_dead_letter holder
  drop_dead_letter-holder k t h = h

  keys_keep :
      (ks : List (ℕ × (Text × Text)))
      → All (λ k. is_for key k ≡ false) ks
      → All (λ k. (t : Tables) → Held t → Held (forget_key k t)) ks
  keys_keep [] others = tt
  keys_keep (k ∷ ks) others =
      (λ t h. forget_key-holder key id k t others.0 h, keys_keep ks others.1)

  -- The cleanup forgets no key that the index of creation times does not date before the limit of the
  -- expiry: whatever statements fail, such a key stays with its event.
  pub cleanup_expired-holder :
      (m : Module) (keys_before letters_before : ℕ) (limit : ℤ) (db : Db)
      → IsYoung key keys_before (tables db).idempotency_by_created
      → holder key (tables db) ≡ some id
      → holder key (tables (cleanup_expired c m keys_before letters_before limit db).1) ≡ some id
  cleanup_expired-holder m keys_before letters_before limit db young =
      cleanup_expired-keeps_expired c lawful Held drop_dead_letter-holder m keys_before
        letters_before limit db
        (keys_keep _ (
          expired-other key keys_before (cleanup_limit limit) (tables db).idempotency_by_created
            young))
