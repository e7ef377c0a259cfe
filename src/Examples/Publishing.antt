-- ===== src/Examples/Publishing.antt =====
-- Publishing and the relay with a broker that counts its calls and a store that counts its leases,
-- and the tokens of a small configuration.
use shiro_distributed_system.Common.{
  ℕ, suc, ◌≡◌, ◌↔◌, refl, true, false, none, some, [], ◌∷◌, Text, pos, Result, ok, err, codes,
  arith, leb, if◌then◌else◌, is_empty,
}
use shiro_distributed_system.GoMax.{max}
use shiro_distributed_system.Config.{Config}
use shiro_distributed_system.Contracts.{Error, failed}
use shiro_distributed_system.Breaker.{CircuitBreaker, new_circuit_breaker}
use shiro_distributed_system.Interfaces.{Runtime, EventBus, EventStore, AdvancedEventStore}
use shiro_distributed_system.Publish.{publish_with_retry}
use shiro_distributed_system.Publish.Runs.{Reaches, publish_with_retry-Reaches}
use shiro_distributed_system.Publish.Attempts.{
  Delivered, Counted, Recovers, publish_with_retry-delivers,
}
use shiro_distributed_system.Relay.{relay_outbox_batch}
use shiro_distributed_system.Relay.Backed.{
  Accounts, IsAccounted, IsBacked, relay_outbox_batch-IsBacked,
}
use shiro_distributed_system.AuthGuard.{AuthFailureGuard, new_auth_failure_guard, is_blocked}
use shiro_distributed_system.Access.{rw_scope, serves, bearer_token, is_expired, secure}
use shiro_distributed_system.Access.Grants.{Grants, secure-serves_iff}
use shiro_distributed_system.Examples.Memory.{order_event, defaults}

-- The calls of the broker and the leases granted.
abbrev pub Counts : Type 0
Counts = ℕ × ℕ

abbrev pub counting : Runtime
counting = record { World = Counts; now = λ w. 0; wait = λ d w. (true, w); error_text = λ e. [] }

abbrev answer : Text → ℕ → Result Error Text
answer id calls = if leb 1 calls then ok id else err (failed (codes "timeout"))

-- It fails the first time.
abbrev pub broker : EventBus Counts
broker = record {
  publish = λ subject payload id w. (answer id w.0, (suc w.0, w.1));
  subscribe = λ subject w. (ok tt, w);
}

-- It grants one lease.
abbrev leasing : AdvancedEventStore Counts
leasing = record {
  claim_outbox_lease = λ id owner d w. (ok (leb w.1 0), (w.0, if leb w.1 0 then suc w.1 else w.1));
  record_outbox_failure = λ id e base most percent after w. ((false, 1, none), w);
  list_dead_letters = λ limit w. (ok [], w);
  replay_dead_letter = λ id w. (ok tt, w);
  cleanup_expired = λ keys letters limit w. ((0, 0, none), w);
}

abbrev pub store : EventStore Counts
store = record {
  append_event_exactly_once =
      λ event w. (ok (record { event = event; duplicate = false; published = false }), w);
  mark_outbox_published = λ id broker_id w. (ok tt, w);
  pending_outbox_events = λ limit w. (ok (order_event ∷ order_event ∷ []), w);
  claim_inbox_message = λ consumer id w. (ok true, w);
  recent_events = λ stream limit w. (ok [], w);
  advanced = some leasing;
}

-- Three attempts for each publish.
abbrev pub settings : Config
settings = record defaults { publish_retry_max = pos 3 }

abbrev pub breaker : CircuitBreaker
breaker = new_circuit_breaker (codes "nats") (pos 5) 15 (pos 2)

broker-Counted : Counted counting broker (λ w. w.0)
broker-Counted = record { publish_counts = λ subject payload id w. refl; wait_counts = λ d w. refl }

broker-Recovers : Recovers counting broker (λ w. w.0) 1
broker-Recovers = record {
  wait_fires = λ d w. refl;
  accepts = λ subject payload id w enough. (id, ground arith);
}

publish_with_retry-Reaches_example :
    Reaches counting broker
      (λ w. w.0)
      broker-Counted
      3
      (breaker, (0, 0))
      (publish_with_retry counting settings
        (some broker)
        (codes "s")
        []
        (codes "m")
        (breaker, (0, 0)))
publish_with_retry-Reaches_example =
    publish_with_retry-Reaches counting broker (λ w. w.0) broker-Counted settings (codes "s") []
      (codes "m") (breaker, (0, 0))

publish_with_retry-delivers_example :
    Delivered counting broker
      (λ w. w.0)
      broker-Counted
      (codes "s")
      []
      (codes "m")
      (publish_with_retry counting settings
        (some broker)
        (codes "s")
        []
        (codes "m")
        (breaker, (0, 0)))
unfolding new_circuit_breaker max
publish_with_retry-delivers_example =
    publish_with_retry-delivers counting broker (λ w. w.0) broker-Counted 1 broker-Recovers settings
      (codes "s") [] (codes "m") (breaker, (0, 0)) refl (omega arith) (omega arith)

store-Accounts : Accounts Counts store leasing (λ w. w.0) (λ w. w.1)
store-Accounts = record {
  lease_calls = λ id owner d w. refl;
  lease_grants = λ id owner d w granted. ground arith;
  lease_keeps = λ id owner d w. ground arith;
  failure_calls = λ id e base most percent after w. (refl, refl);
  mark_calls = λ id broker_id w. (refl, refl);
  pending_calls = λ limit w. (refl, refl);
}

abbrev accounted : IsAccounted counting broker store leasing (λ w. w.0) (λ w. w.1)
accounted = record {
  counted = broker-Counted;
  accounts = store-Accounts;
  publish_grants = λ subject payload id w. refl;
  wait_grants = λ d w. refl;
}

relay_outbox_batch-IsBacked_example :
    IsBacked
      (λ w. w.0)
      (λ w. w.1)
      3
      (0, 0)
      (relay_outbox_batch counting settings
        (some broker)
        (some store)
        (breaker, (breaker, (0, 0)))).1.1.1
relay_outbox_batch-IsBacked_example =
    relay_outbox_batch-IsBacked counting settings broker store leasing refl (λ w. w.0) (λ w. w.1)
      accounted (breaker, (breaker, (0, 0)))

abbrev tokens : Config
tokens = record defaults {
  disable_api_token_auth = false;
  api_bearer_token = [];
  api_publish_tokens = codes " writer" ∷ [];
  api_read_tokens = codes "reader" ∷ [];
  api_admin_tokens = codes "root" ∷ [];
}

abbrev guard : AuthFailureGuard
guard = new_auth_failure_guard (pos 3) 300

secure-serves_iff_example :
    ((secure tokens rw_scope (λ _. 10) (codes "10.0.0.1") (codes "Bearer writer") guard).0 ≡ serves)
    ↔ (((is_blocked guard (codes "10.0.0.1") 10).1 ≡ false)
        × (is_empty (bearer_token (codes "Bearer writer")) ≡ false)
        × (is_expired tokens (bearer_token (codes "Bearer writer")) 10 ≡ false)
        × Grants tokens (bearer_token (codes "Bearer writer")) rw_scope)
secure-serves_iff_example =
    secure-serves_iff tokens rw_scope (λ _. 10) (codes "10.0.0.1") (codes "Bearer writer") guard
      refl refl
