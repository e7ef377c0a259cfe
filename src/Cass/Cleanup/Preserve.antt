-- ===== src/Cass/Cleanup/Preserve.antt =====
-- What the batches of the cleanup keep, the cleanup keeps, whatever fails
-- (internal/modules/cassstore/module.go).
use shiro_distributed_system.Common.{
  ℕ, inl, inr, List, [], ◌∷◌, Text, ℤ, Result-cases, Bool-cases, All, map, nat_key,
}
use shiro_distributed_system.Cass.Tables.{Tables, DeadRow, text_pair_key, created_key, time_key}
use shiro_distributed_system.Cass.Driver.{Cassandra, IsLawful, Module, write}
use shiro_distributed_system.Cass.Calls.Preserve.{Keeps-query, Keeps-write}
use shiro_distributed_system.Cass.Cleanup.{
  cleanup_limit, forget_key, drop_dead_letter, expired, delete_all, cleanup_letters,
  cleanup_expired,
}

-- The keys that a cleanup of the tables gives up.
abbrev pub expired_keys : ℕ → ℤ → Tables → List (ℕ × (Text × Text))
expired_keys before limit t =
    map (λ r. r.0)
      (expired {V = ℕ} (λ (k : ℕ × (Text × Text)). k.0) before (cleanup_limit limit)
        t.idempotency_by_created)

module _ (c : Cassandra) (lawful : IsLawful c) (I : Tables → Type 0) where
  open c use {Db, tables, query}

  delete_all-keeps :
      (K : Type 0) (batch : K → Tables → Tables) (ks : List K) (count : ℕ) (db : Db)
      → All (λ k. (t : Tables) → I t → I (batch k t)) ks
      → I (tables db)
      → I (tables (delete_all c K batch ks count db).1)
  unfolding delete_all
  delete_all-keeps K batch [] count db keeps h = h
  delete_all-keeps K batch (k ∷ ks) count db keeps h =
      delete_all-keeps K batch ks _ (write c (batch k) db).1 keeps.1
        ((Keeps-write c lawful I (batch k) keeps.0).at db h)

  each :
      {K : Type 0} (batch : K → Tables → Tables)
      → ((k : K) (t : Tables) → I t → I (batch k t))
      → (ks : List K) → All (λ k. (t : Tables) → I t → I (batch k t)) ks
  each batch keeps [] = tt
  each batch keeps (k ∷ ks) = (keeps k, each batch keeps ks)

  module _ (drops : (k : ℕ × ℕ) (t : Tables) → I t → I (drop_dead_letter k t)) where
    cleanup_letters-keeps :
        (before limit : ℕ) (keys : ℕ × Db)
        → I (tables keys.1)
        → I (tables (cleanup_letters c before limit keys).1)
    unfolding cleanup_letters
    cleanup_letters-keeps before limit keys h =
        let find = λ (t : Tables).
          expired {V = DeadRow} (λ (k : ℕ × ℕ). k.0) before limit t.dead_letters_by_time in
        let rows = query (List ((ℕ × ℕ) × DeadRow)) find keys.1 in
        let h' = (Keeps-query c lawful I (List ((ℕ × ℕ) × DeadRow)) find).at keys.1 h in
        elim (Result-cases rows.0) [
          | inr (x, e) ↦ rw (e, cleanup_letters) h'
          | inl (found, e) ↦
              let ks = map (λ (r : (ℕ × ℕ) × DeadRow). r.0) found in
              rw (e, cleanup_letters)
                (delete_all-keeps (ℕ × ℕ) drop_dead_letter ks 0 rows.1
                  (each drop_dead_letter drops ks) h')
        ]

    -- Of the keys, the batches of those that the tables give up have to keep it.
    pub cleanup_expired-keeps_expired :
        (m : Module) (keys_before letters_before : ℕ) (limit : ℤ) (db : Db)
        → All
            (λ k. (t : Tables) → I t → I (forget_key k t))
            (expired_keys keys_before limit (tables db))
        → I (tables db)
        → I (tables (cleanup_expired c m keys_before letters_before limit db).1)
    unfolding cleanup_expired
    cleanup_expired-keeps_expired m keys_before letters_before limit db forgets h =
        let find = λ (t : Tables).
          expired {V = ℕ} (λ (k : ℕ × (Text × Text)). k.0) keys_before (cleanup_limit limit)
            t.idempotency_by_created in
        let Rows = List ((ℕ × (Text × Text)) × ℕ) in
        let rows = query Rows find db in
        let h' = (Keeps-query c lawful I Rows find).at db h in
        elim (Bool-cases m.session) [
          | inr off ↦ rw off h
          | inl on ↦ elim (lawful.query_law Rows find db).1 [
            | inr (x, e) ↦ rw (on, e, cleanup_expired) h'
            | inl e ↦
                rw (on, e, cleanup_expired)
                  (cleanup_letters-keeps letters_before (cleanup_limit limit)
                    (delete_all c (ℕ × (Text × Text)) forget_key
                      (expired_keys keys_before limit (tables db)) 0 rows.1)
                    (delete_all-keeps (ℕ × (Text × Text)) forget_key _ 0 rows.1 forgets h'))
          ]
        ]

    pub cleanup_expired-keeps :
        ((k : ℕ × (Text × Text)) (t : Tables) → I t → I (forget_key k t))
        → (m : Module) (keys_before letters_before : ℕ) (limit : ℤ) (db : Db) → I (tables db)
        → I (tables (cleanup_expired c m keys_before letters_before limit db).1)
    cleanup_expired-keeps forgets m keys_before letters_before limit db =
        cleanup_expired-keeps_expired m keys_before letters_before limit db
          (each forget_key forgets (expired_keys keys_before limit (tables db)))
