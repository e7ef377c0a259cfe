-- ===== src/Cass/Driver.antt =====
-- The Cassandra session as gocql shows it. Neither gocql nor Cassandra is part of the repository:
-- a session is a parameter, with the documented behaviour of its calls as the laws below. What a
-- statement asks for is written as a function of the tables, after its CQL text.
use shiro_distributed_system.Common.{
  ℕ, ◌≡◌, ◌⊎◌, Bool, Option, some, Text, Result, ok, err, if◌then◌else◌,
}
use shiro_distributed_system.Contracts.{Error, not_found, session_not_available, invalid_uuid}
use shiro_distributed_system.Monad.{M, or_fail, ◌>>=◌}
use shiro_distributed_system.Cass.Tables.{Tables}

pub record Cassandra : Type 1 where
  -- The cluster and the connection to it.
  pub Db : Type 0
  pub tables : Db → Tables
  -- A SELECT.
  pub query : (A : Type 0) → (Tables → A) → Db → Result Error A × Db
  -- A write, a logged batch or a lightweight transaction, with what it reports.
  pub execute : (A : Type 0) → (Tables → A × Tables) → Db → Result Error A × Db
  -- gocql.UUID.String, gocql.ParseUUID and the SHA-256 of a text in hexadecimal.
  pub uuid_string : ℕ → Text
  pub parse_uuid : Text → Option ℕ
  pub sha256_hex : Text → Text

-- A SELECT reports what the tables hold, or fails; it changes nothing. A write that succeeds is
-- applied; one that fails (by a timeout, say) is applied whole or not at all.
pub record IsLawful (c : Cassandra) : Type 1 where
  pub query_law :
      (A : Type 0) (q : Tables → A) (db : c.Db)
      → (c.tables (c.query A q db).1 ≡ c.tables db)
        × (((c.query A q db).0 ≡ ok (q (c.tables db)))
            ⊎ ((e : Error) × ((c.query A q db).0 ≡ err e)))
  pub execute_law :
      (A : Type 0) (u : Tables → A × Tables) (db : c.Db)
      → (((c.execute A u db).0 ≡ ok (u (c.tables db)).0)
          × (c.tables (c.execute A u db).1 ≡ (u (c.tables db)).1))
        ⊎ ((e : Error) × ((c.execute A u db).0 ≡ err e)
            × ((c.tables (c.execute A u db).1 ≡ c.tables db)
                ⊎ (c.tables (c.execute A u db).1 ≡ (u (c.tables db)).1)))
  pub parse_uuid_string : (u : ℕ) → c.parse_uuid (c.uuid_string u) ≡ some u

-- No call fails.
pub record IsReliable (c : Cassandra) : Type 1 where
  pub query_ok :
      (A : Type 0) (q : Tables → A) (db : c.Db) → (c.query A q db).0 ≡ ok (q (c.tables db))
  pub execute_ok :
      (A : Type 0) (u : Tables → A × Tables) (db : c.Db)
      → ((c.execute A u db).0 ≡ ok (u (c.tables db)).0)
        × (c.tables (c.execute A u db).1 ≡ (u (c.tables db)).1)

-- What the store's `Module` keeps for its calls: whether it has a session.
pub record Module : Type 0 where
  pub session : Bool

module _ (c : Cassandra) where
  open c use {Db, query, execute, parse_uuid}

  abbrev pub Store : Type 0 → Type 0
  Store A = M Db A

  -- A SELECT of one row, by `Scan`.
  unfoldable pub scan : (A : Type 0) → (Tables → Option A) → Store A
  scan A q = query (Option A) q >>= or_fail not_found

  -- A write that reports nothing.
  unfoldable pub write : (Tables → Tables) → Store (Unit {0})
  write u = execute (Unit {0}) (λ t. (tt, u t))

  -- Every method begins with a look for the session.
  abbrev pub with_session : {A : Type 0} → Module → Store A → Store A
  with_session m body db = if m.session then body db else (err session_not_available, db)

  abbrev pub to_uuid : Text → Store ℕ
  to_uuid event_id = or_fail invalid_uuid (parse_uuid event_id)
