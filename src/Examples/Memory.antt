-- ===== src/Examples/Memory.antt =====
-- A session that keeps the tables in memory and never fails, with the laws of a session.
use shiro_distributed_system.Common.{
  ℕ, inl, refl, true, Option, none, some, [], ◌∷◌, Text, ok, codes,
}
use shiro_distributed_system.Config.{Config}
use shiro_distributed_system.Config.Env.{from_env}
use shiro_distributed_system.Contracts.{EventRecord}
use shiro_distributed_system.Cass.Tables.{Tables}
use shiro_distributed_system.Cass.Driver.{Cassandra, IsLawful, IsReliable, Module}

abbrev only : Text → Option ℕ
only (u ∷ []) = some u
only _ = none

abbrev pub memory : Cassandra
memory = record {
  Db = Tables;
  tables = λ t. t;
  query = λ A q t. (ok (q t), t);
  execute = λ A u t. (ok (u t).0, (u t).1);
  uuid_string = λ u. u ∷ [];
  parse_uuid = only;
  sha256_hex = λ s. s;
}

pub memory-IsLawful : IsLawful memory
memory-IsLawful = record {
  query_law = λ A q t. (refl, inl refl);
  execute_law = λ A u t. inl (refl, refl);
  parse_uuid_string = λ u. refl;
}

pub memory-IsReliable : IsReliable memory
memory-IsReliable = record { query_ok = λ A q t. refl; execute_ok = λ A u t. (refl, refl) }

abbrev pub connected : Module
connected = record { session = true }

abbrev pub order_event : EventRecord
order_event = record {
  id = [];
  idempotency_key = codes "order-1";
  stream = codes "orders";
  subject = codes "events.orders";
  event_type = codes "order.created";
  payload = codes "{}";
  occurred_at = 5;
  retry_count = 0;
  last_error = [];
  quarantined_at = 0;
}

-- A clock that stands.
abbrev pub noon : ℕ → ℕ
noon _ = 10

-- The configuration of an empty environment.
abbrev pub defaults : Config
defaults = from_env (λ key. []) none
