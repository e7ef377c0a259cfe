-- ===== src/Cass/Calls/Preserve.antt =====
-- What every statement keeps, every call keeps, whether it succeeds or fails
-- (internal/modules/cassstore/module.go).
use shiro_distributed_system.Common.{
  ℕ, inl, inr, sym, subst, Option, none, some, Text, Result, Result-cases, Bool-cases, nat_key,
}
use shiro_distributed_system.Contracts.{Error}
use shiro_distributed_system.Monad.{or_fail, ◌>>=◌}
use shiro_distributed_system.Cass.Tables.{Tables}
use shiro_distributed_system.Cass.Driver.{
  Cassandra, IsLawful, Module, Store, scan, write, to_uuid, with_session,
}

module _ (c : Cassandra) (lawful : IsLawful c) (I : Tables → Type 0) where
  open c use {Db, tables, query, execute}

  -- A call that leaves `I` true of the tables, whatever it returns.
  pub record Keeps (A : Type 0) (m : Db → A × Db) : Type 0 where
    pub at : (db : Db) → I (tables db) → I (tables (m db).1)

  pub Keeps-query : (A : Type 0) (q : Tables → A) → Keeps (Result Error A) (query A q)
  Keeps-query A q = record { at = λ db h. subst I (sym (lawful.query_law A q db).0) h }

  pub Keeps-execute :
      (A : Type 0) (u : Tables → A × Tables)
      → ((t : Tables) → I t → I (u t).1)
      → Keeps (Result Error A) (execute A u)
  Keeps-execute A u keeps = record {
    at = λ db h. elim (lawful.execute_law A u db) [
      | inl (e, done) ↦ subst I (sym done) (keeps (tables db) h)
      | inr (x, e, inl kept) ↦ subst I (sym kept) h
      | inr (x, e, inr done) ↦ subst I (sym done) (keeps (tables db) h)
    ];
  }

  pub Keeps-return : {A : Type 0} (r : Result Error A) → Keeps (Result Error A) (λ db. (r, db))
  Keeps-return r = record { at = λ db h. h }

  pub Keeps-or_fail : {A : Type 0} (e : Error) (o : Option A) → Keeps (Result Error A) (or_fail e o)
  Keeps-or_fail e none = record { at = λ db h. h }
  Keeps-or_fail e (some a) = record { at = λ db h. h }

  pub Keeps-bind :
      {A B : Type 0} (m : Store c A) (f : A → Store c B)
      → Keeps (Result Error A) m
      → ((a : A) → Keeps (Result Error B) (f a))
      → Keeps (Result Error B) (m >>= f)
  Keeps-bind m f km kf = record {
    at = λ db h. elim (Result-cases (m db).0) [
      | inl (a, e) ↦ rw e ((kf a).at (m db).1 (km.at db h))
      | inr (x, e) ↦ rw e (km.at db h)
    ];
  }

  pub Keeps-with_session :
      {A : Type 0} (m : Module) (body : Store c A)
      → Keeps (Result Error A) body
      → Keeps (Result Error A) (with_session c m body)
  Keeps-with_session m body k = record {
    at = λ db h. elim (Bool-cases m.session) [ inl on ↦ rw on (k.at db h) | inr off ↦ rw off h ];
  }

  pub Keeps-scan : (A : Type 0) (q : Tables → Option A) → Keeps (Result Error A) (scan c A q)
  unfolding scan
  Keeps-scan A q = Keeps-bind _ _ (Keeps-query (Option A) q) (λ o. Keeps-or_fail _ o)

  pub Keeps-write :
      (u : Tables → Tables)
      → ((t : Tables) → I t → I (u t))
      → Keeps (Result Error (Unit {0})) (write c u)
  unfolding write
  Keeps-write u keeps = Keeps-execute (Unit {0}) (λ t. (tt, u t)) keeps

  pub Keeps-to_uuid : (event_id : Text) → Keeps (Result Error ℕ) (to_uuid c event_id)
  Keeps-to_uuid event_id = Keeps-or_fail _ (c.parse_uuid event_id)
