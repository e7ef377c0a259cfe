-- ===== src/Cass/Outbox/Leases.antt =====
-- Leases exclude one another (internal/modules/cassstore/module.go).
use shiro_distributed_system.Common.{
  ℕ, ◌+◌, ◌≤◌, ◌≡◌, ◌≢◌, Bool, true, false, none, some, List, [], ◌∷◌, Text, arith, Result, ok, All,
  nat_key, leb,
}
use shiro_distributed_system.Common.Assoc.{lookup, lookup-insert_self}
use shiro_distributed_system.Contracts.{Error}
use shiro_distributed_system.Cass.Tables.{Tables}
use shiro_distributed_system.Cass.Driver.{Cassandra, IsLawful, Module}
use shiro_distributed_system.Cass.Outbox.{claim_lease, claim_outbox_lease}

-- A claim of the event at any time up to `till` is refused.
unfoldable pub is_leased : ℕ → ℕ → Tables → Bool
is_leased id till t = elim (lookup id t.outbox_retry_state) [
  | none ↦ true
  | some row ↦ leb till row.lease_until
]

claim_lease-leases :
    (id : ℕ) (owner : Text) (till now : ℕ) (t : Tables)
    → (claim_lease id owner till now t).0 ≡ true
    → is_leased id till (claim_lease id owner till now t).1 ≡ true
unfolding claim_lease is_leased
claim_lease-leases id owner till now t h = grind (arith, lookup-insert_self)

claim_lease-refuses :
    (id : ℕ) (owner : Text) (till until now : ℕ) (t : Tables)
    → now ≤ till
    → is_leased id till t ≡ true
    → ((claim_lease id owner until now t).0 ≡ false) × ((claim_lease id owner until now t).1 ≡ t)
unfolding claim_lease is_leased
claim_lease-refuses id owner till until now t before h = ground arith

-- A claim of one event: when, by whom and for how long.
pub record Claim : Type 0 where
  pub now : ℕ
  pub owner : Text
  pub duration : ℕ

module _ (c : Cassandra) where
  -- The answers to a sequence of claims of one event.
  pub answers : Module → Text → List Claim → c.Db → List (Result Error Bool)
  answers m event_id [] db = []
  answers m event_id (claim ∷ claims) db =
      let r = claim_outbox_lease c m claim.now event_id claim.owner claim.duration db in
      r.0 ∷ answers m event_id claims r.1

module _ (c : Cassandra) (lawful : IsLawful c) where
  open c use {Db, tables, parse_uuid}

  claim-leases :
      (m : Module) (now : ℕ) (event_id owner : Text) (duration : ℕ) (id : ℕ) (db : Db)
      → parse_uuid event_id ≡ some id
      → (claim_outbox_lease c m now event_id owner duration db).0 ≡ ok true
      → is_leased id
          (now + duration)
          (tables (claim_outbox_lease c m now event_id owner duration db).1)
        ≡ true
  unfolding claim_outbox_lease
  claim-leases m now event_id owner duration id db parsed h = ground (
    arith,
    lawful.execute_law Bool (claim_lease id owner (now + duration) now) db,
    claim_lease-leases id owner (now + duration) now (tables db),
  )

  claim-refuses :
      (m : Module) (now till : ℕ) (event_id owner : Text) (duration : ℕ) (id : ℕ) (db : Db)
      → parse_uuid event_id ≡ some id
      → now ≤ till
      → is_leased id till (tables db) ≡ true
      → ((claim_outbox_lease c m now event_id owner duration db).0 ≢ ok true)
        × (tables (claim_outbox_lease c m now event_id owner duration db).1 ≡ tables db)
  unfolding claim_outbox_lease
  claim-refuses m now till event_id owner duration id db parsed before h = ground (
    arith,
    lawful.execute_law Bool (claim_lease id owner (now + duration) now) db,
    claim_lease-refuses id owner till (now + duration) now (tables db) before h,
  )

  pub answers-refused :
      (m : Module) (event_id : Text) (id till : ℕ) (claims : List Claim) (db : Db)
      → parse_uuid event_id ≡ some id
      → All (λ claim. claim.now ≤ till) claims
      → is_leased id till (tables db) ≡ true
      → All (λ r. r ≢ ok true) (answers c m event_id claims db)
  unfolding answers
  answers-refused m event_id id till [] db parsed early h = tt
  answers-refused m event_id id till (claim ∷ claims) db parsed early h =
      let (refused, kept) =
        claim-refuses m claim.now till event_id claim.owner claim.duration id db parsed early.0 h in
      (refused, answers-refused m event_id id till claims _ parsed early.1 (rw kept h))

  -- While a lease that was granted runs, no claim of the event is granted, whoever makes it: each is
  -- refused or fails. (A report of a failure or a replay, which give a lease back, do not come
  -- between.)
  pub claim-excludes :
      (m m' : Module) (now : ℕ) (event_id owner : Text) (duration id : ℕ) (claims : List Claim)
      (db : Db)
      → parse_uuid event_id ≡ some id
      → (claim_outbox_lease c m now event_id owner duration db).0 ≡ ok true
      → All (λ claim. claim.now ≤ now + duration) claims
      → All
          (λ r. r ≢ ok true)
          (answers c m' event_id claims (claim_outbox_lease c m now event_id owner duration db).1)
  claim-excludes m m' now event_id owner duration id claims db parsed h early =
      answers-refused m' event_id id (now + duration) claims _ parsed early
        (claim-leases m now event_id owner duration id db parsed h)
