-- ===== src/Examples/Appends.antt =====
-- Appends under a key, at the store in memory.
use shiro_distributed_system.Common.{
  ℕ, arith, pos, ◌≡◌, ◌⊎◌, refl, true, false, List, [], ◌∷◌, ok, err, codes, nat_key, text_eq,
}
use shiro_distributed_system.Common.Assoc.{lookup, insert}
use shiro_distributed_system.Contracts.{Error, EventRecord, AppendResult}
use shiro_distributed_system.Cass.Tables.{Tables, empty_tables, text_pair_key}
use shiro_distributed_system.Cass.Driver.{write}
use shiro_distributed_system.Cass.Append.{
  claim_key, insert_created, insert_event, with_defaults, append_new, append_claimed, append_keyed,
  append_event_exactly_once,
}
use shiro_distributed_system.Cass.Append.Keys.{holder, IsDuplicateOf}
use shiro_distributed_system.Cass.Cleanup.Once.{append_exactly_once}
use shiro_distributed_system.Cass.Calls.Cleaned.{StoreCall, calls, cleans, run_any, step_any}
use shiro_distributed_system.Cass.Outbox.{claim_outbox_lease, claim_lease}
use shiro_distributed_system.Cass.Outbox.Tracking.{is_tracked}
use shiro_distributed_system.Cass.Outbox.Tracked.{run_any-is_tracked}
use shiro_distributed_system.Cass.Append.Durable.{is_written}
use shiro_distributed_system.Cass.Cleanup.{
  cleanup_expired, cleanup_letters, delete_all, expired, cleanup_limit, forget_key,
}
use shiro_distributed_system.Cass.Append.Orphans.{append-orphan}
use shiro_distributed_system.Cass.Inbox.{claim_message, claim_inbox_message}
use shiro_distributed_system.Cass.Inbox.Once.{claim-once}
use shiro_distributed_system.Cass.Calls.{polls, leases, appends, step}
use shiro_distributed_system.Examples.Memory.{memory, memory-IsLawful, connected, order_event, noon}

abbrev appended : AppendResult
appended = record {
  event = record order_event { id = 7 ∷ [] };
  duplicate = false;
  published = false;
}

-- The same key with another payload.
abbrev other_event : EventRecord
other_event = record order_event { payload = codes "{\"n\":2}" }

-- A poll, a lease, and a cleanup of what is older than 1.
abbrev between : List StoreCall
between =
    calls (polls connected noon (pos 10))
    ∷ calls (leases connected 20 (7 ∷ []) (codes "node") 5)
    ∷ cleans connected 1 1 (pos 10)
    ∷ []

append_exactly_once_example :
    (h : ℕ) × (appended.event.id ≡ memory.uuid_string h)
    × IsDuplicateOf memory h
        (run_any memory between
          (append_event_exactly_once memory connected noon 7 order_event empty_tables).1)
        (append_event_exactly_once memory connected noon 8 other_event (
          run_any memory between
            (append_event_exactly_once memory connected noon 7 order_event empty_tables).1))
unfolding append_event_exactly_once append_keyed append_claimed append_new claim_key write
    with_defaults lookup
append_exactly_once_example =
    append_exactly_once memory memory-IsLawful connected connected noon noon 7 8 order_event
      other_event between 1 empty_tables appended refl refl refl (omega arith) tt
      (tt, (tt, (omega arith, tt))) refl

-- The tables with a key that event 7 holds, and nothing else.
abbrev held_tables : Tables
held_tables = record empty_tables {
  idempotency_keys =
      (
        (codes "orders", codes "order-1"),
        record { event_id = 7; payload_hash = []; created_at = 1 },
      )
      ∷ [];
}

append-orphan_example :
    (e : Error) × ((append_event_exactly_once memory connected noon 8 order_event held_tables).0
      ≡ err e)
unfolding holder lookup with_defaults text_eq
append-orphan_example =
    append-orphan memory memory-IsLawful connected noon 8 order_event 7 held_tables refl refl refl

claim-once_example :
    let t =
      run_any memory between
        (claim_inbox_message memory connected 10 (codes "mail") (codes "m1") empty_tables).1 in
    ((claim_inbox_message memory connected 30 (codes "mail") (codes "m1") t).0 ≡ ok false)
    ⊎ ((e : Error) × ((claim_inbox_message memory connected 30 (codes "mail") (codes "m1") t).0
          ≡ err e))
unfolding claim_inbox_message claim_message lookup
claim-once_example =
    claim-once memory memory-IsLawful connected connected 10 30 (codes "mail") (codes "m1") between
      empty_tables true refl

-- The key was indexed at 30; what is older than 20 is forgotten.
abbrev pub indexed : Tables
indexed = record held_tables {
  idempotency_by_created = ((30, (codes "orders", codes "order-1")), 7) ∷ [];
}

-- An event is appended and leased, and the cleanup forgets its key.
abbrev working : List StoreCall
working =
    calls (appends connected noon 7 order_event)
    ∷ calls (leases connected 20 (7 ∷ []) (codes "node") 5)
    ∷ cleans connected 50 50 (pos 10)
    ∷ []

unwritten : is_written 7 empty_tables ≡ true → is_tracked 7 empty_tables ≡ true
unfolding is_written lookup
unwritten h = absurd (ground arith)

written : is_written 7 (run_any memory working empty_tables) ≡ true
unfolding run_any step_any step append_event_exactly_once append_keyed append_claimed append_new
    claim_key insert_created insert_event write with_defaults lookup insert claim_outbox_lease
    claim_lease cleanup_expired cleanup_letters delete_all expired cleanup_limit is_written text_eq
    forget_key
written = refl

run_any-is_tracked_example : is_tracked 7 (run_any memory working empty_tables) ≡ true
run_any-is_tracked_example =
    run_any-is_tracked memory memory-IsLawful 7 working empty_tables unwritten written
