-- ===== src/Cass/Cleanup/Once.antt =====
-- A key over several appends, with the cleanup between them
-- (internal/modules/cassstore/module.go).
use shiro_distributed_system.Common.{ℕ, ◌≤◌, ◌≡◌, false, List, Text, is_empty, All, ok}
use shiro_distributed_system.Contracts.{EventRecord, AppendResult}
use shiro_distributed_system.Cass.Driver.{Cassandra, IsLawful, Module}
use shiro_distributed_system.Cass.Append.{with_defaults, append_event_exactly_once}
use shiro_distributed_system.Cass.Append.Keys.{IsDuplicateOf, append-held}
use shiro_distributed_system.Cass.Append.Once.{append-holder}
use shiro_distributed_system.Cass.Calls.{appends, step}
use shiro_distributed_system.Cass.Calls.Kept.{Any}
use shiro_distributed_system.Cass.Calls.Step.{step-keeps}
use shiro_distributed_system.Cass.Calls.Cleaned.{StoreCall, run_any, IsAllowed}
use shiro_distributed_system.Cass.Cleanup.Young.{IsDated, IsDated-IsKept, run_any-IsProtected}

module _ (c : Cassandra) (lawful : IsLawful c) where
  open c use {Db, tables, uuid_string}

  -- Once an append under a key has succeeded, another append under that key and stream, with whatever
  -- event, writes nothing; and it fails, or it reports the same event identity, marked as a duplicate.
  -- Between the two may come any calls of the store, the cleanup included, by anyone and whether they
  -- succeed or fail, as long as no cleanup forgets keys younger than a time `start` that is no later
  -- than when any append, the first included, indexes its key, and the index dates the key no earlier
  -- than `start` to begin with.
  pub append_exactly_once :
      (m m' : Module) (clock clock' : ℕ → ℕ) (id id' : ℕ) (event event' : EventRecord)
      (calls : List StoreCall) (start : ℕ) (db : Db) (a : AppendResult)
      → is_empty event.idempotency_key ≡ false
      → event'.idempotency_key ≡ event.idempotency_key
      → (with_defaults (clock' 0) event').stream ≡ (with_defaults (clock 0) event).stream
      → start ≤ clock 2
      → IsDated ((with_defaults (clock 0) event).stream, event.idempotency_key) start (tables db)
      → All (IsAllowed (λ at. start ≤ at) (λ before. before ≤ start)) calls
      → (append_event_exactly_once c m clock id event db).0 ≡ ok a
      → let db' = run_any c calls (append_event_exactly_once c m clock id event db).1 in
        (h : ℕ) × (a.event.id ≡ uuid_string h)
        × IsDuplicateOf c h db' (append_event_exactly_once c m' clock' id' event' db')
  unfolding step
  append_exactly_once m m' clock clock' id id' event event' calls start db a keyed same_key
        same_stream late dated allowed h =
      let first = append_event_exactly_once c m clock id event db in
      let (owner, held, same) = append-holder c lawful m clock id event db a keyed h in
      let key : Text × Text = ((with_defaults (clock 0) event).stream, event.idempotency_key) in
      let dated' =
        step-keeps c lawful (IsDated key start) Any (λ at. start ≤ at) (IsDated-IsKept key start)
          (appends m clock id event) db (tt, late) dated in
      let later =
        run_any-IsProtected c lawful key owner start calls first.1 allowed (held, dated') in
      (
        owner,
        same,
        append-held c lawful m' clock' id' event' owner (run_any c calls first.1)
            (rw same_key keyed) (rw (same_stream, same_key) later.0),
      )
