-- ===== src/Cass/Calls/Cleaned.antt =====
-- Sequences of any calls of the event store, those of the cleanup included
-- (internal/modules/cassstore/module.go).
use shiro_distributed_system.Common.{ℕ, List, [], ◌∷◌, ℤ, All, nat_key, Text}
use shiro_distributed_system.Cass.Tables.{Tables, text_pair_key}
use shiro_distributed_system.Cass.Driver.{Cassandra, IsLawful, Module}
use shiro_distributed_system.Cass.Cleanup.{cleanup_expired, forget_key, drop_dead_letter}
use shiro_distributed_system.Cass.Cleanup.Preserve.{cleanup_expired-keeps}
use shiro_distributed_system.Cass.Calls.{Call, step}
use shiro_distributed_system.Cass.Calls.Kept.{IsKept, IsFresh, Any, All-IsFresh}
use shiro_distributed_system.Cass.Calls.Step.{step-keeps}

-- A call, or a cleanup with its two limits of age and its limit of rows.
pub data StoreCall : Type 0 where
  calls : Call → StoreCall
  cleans : Module → ℕ → ℕ → ℤ → StoreCall

module _ (c : Cassandra) where
  unfoldable pub step_any : StoreCall → c.Db → c.Db
  step_any (calls call) db = step c call db
  step_any (cleans m keys_before letters_before limit) db =
      (cleanup_expired c m keys_before letters_before limit db).1

  unfoldable pub run_any : List StoreCall → c.Db → c.Db
  run_any [] db = db
  run_any (call ∷ more) db = run_any more (step_any call db)

-- The appends write events that are fresh and index keys at allowed times, and the cleanups forget
-- keys up to allowed times.
abbrev pub IsAllowedFor : (ℕ → Type 0) → (ℕ → Type 0) → (ℕ → Type 0) → StoreCall → Type 0
IsAllowedFor Fresh Timely Mild (calls call) = IsFresh Fresh Timely call
IsAllowedFor Fresh Timely Mild (cleans m keys_before letters_before limit) = Mild keys_before

abbrev pub IsAllowed : (ℕ → Type 0) → (ℕ → Type 0) → StoreCall → Type 0
IsAllowed = IsAllowedFor Any

-- The appends write only events that are fresh.
abbrev pub IsSpared : (ℕ → Type 0) → StoreCall → Type 0
IsSpared Fresh = IsAllowedFor Fresh Any Any

All-IsAllowed : (some_calls : List StoreCall) → All (IsAllowed Any Any) some_calls
All-IsAllowed [] = tt
All-IsAllowed (calls call ∷ more) = ((All-IsFresh (call ∷ [])).0, All-IsAllowed more)
All-IsAllowed (cleans _ _ _ _ ∷ more) = (tt, All-IsAllowed more)

module _ (c : Cassandra) (lawful : IsLawful c) (I : Tables → Type 0) where
  open c use {Db, tables}

  pub run_any-keeps :
      (Fresh Timely Mild : ℕ → Type 0)
      → IsKept I Fresh Timely
      → ((m : Module) (keys_before letters_before : ℕ) (limit : ℤ) (db : Db)
          → Mild keys_before
          → I (tables db)
          → I (tables (cleanup_expired c m keys_before letters_before limit db).1))
      → (some_calls : List StoreCall) (db : Db) → All (IsAllowedFor Fresh Timely Mild) some_calls
      → I (tables db)
      → I (tables (run_any c some_calls db))
  unfolding run_any step_any
  run_any-keeps Fresh Timely Mild k cleaned [] db allowed h = h
  run_any-keeps Fresh Timely Mild k cleaned (calls call ∷ more) db allowed h =
      run_any-keeps Fresh Timely Mild k cleaned more (step c call db) allowed.1
        (step-keeps c lawful I Fresh Timely k call db allowed.0 h)
  run_any-keeps Fresh Timely Mild k cleaned (cleans m kb lb limit ∷ more) db allowed h =
      run_any-keeps Fresh Timely Mild k cleaned more (cleanup_expired c m kb lb limit db).1
        allowed.1 (cleaned m kb lb limit db allowed.0 h)

  -- What the batches of the cleanup keep too, calls that append only fresh events keep.
  pub run_any-keeps_spared :
      (Fresh : ℕ → Type 0)
      → IsKept I Fresh Any
      → ((k : ℕ × ℕ) (t : Tables) → I t → I (drop_dead_letter k t))
      → ((k : ℕ × (Text × Text)) (t : Tables) → I t → I (forget_key k t))
      → (some_calls : List StoreCall) (db : Db) → All (IsSpared Fresh) some_calls
      → I (tables db)
      → I (tables (run_any c some_calls db))
  run_any-keeps_spared Fresh k drops forgets some_calls db spared h =
      run_any-keeps Fresh Any Any k
        (λ m kb lb limit db _ h. cleanup_expired-keeps c lawful I drops forgets m kb lb limit db h)
        some_calls db spared h

  pub run_any-keeps_all :
      IsKept I Any Any
      → ((k : ℕ × ℕ) (t : Tables) → I t → I (drop_dead_letter k t))
      → ((k : ℕ × (Text × Text)) (t : Tables) → I t → I (forget_key k t))
      → (some_calls : List StoreCall) (db : Db) → I (tables db)
      → I (tables (run_any c some_calls db))
  run_any-keeps_all k drops forgets some_calls db =
      run_any-keeps_spared Any k drops forgets some_calls db (All-IsAllowed some_calls)
