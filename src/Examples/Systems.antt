-- ===== src/Examples/Systems.antt =====
-- Two nodes over one cluster in memory, and two requests with one key.
use shiro_distributed_system.Common.{
  ℕ, List, suc, ◌+◌, ◌≡◌, ◌≢◌, ◌⊎◌, refl, true, false, arith, wrap64, ◌*ℤ◌, text_eq, none, some, [],
  Text, pos, codes, ok, ◌∷◌,
}
use shiro_distributed_system.SubjectLimiter.{new_subject_rate_limiter, limits, bucket}
use shiro_distributed_system.GoMax.{max}
use shiro_distributed_system.Common.Assoc.{lookup, insert}
use shiro_distributed_system.Breaker
use shiro_distributed_system.Breaker.{new_circuit_breaker, failure, success}
use shiro_distributed_system.SubjectLimiter
use shiro_distributed_system.Relay.{record_failure, relay_event, claim_lease_of}
use shiro_distributed_system.Contracts.{EventRecord, AppendResult}
use shiro_distributed_system.Cass.Outbox.Published.{IsSettled}
use shiro_distributed_system.Examples.Deliveries.{order_row, order_retry, waiting}
use shiro_distributed_system.Publish.{
  bus_publish, guarded, longer, publish_from, publish_with_retry, store_append_event_exactly_once,
  store_mark_outbox_published, with_store,
}
use shiro_distributed_system.Cass.Driver.{write, scan}
use shiro_distributed_system.Cass.Append.{
  claim_key, insert_created, insert_event, with_defaults, append_new, append_claimed, append_keyed,
  append_event_exactly_once, existing_event, is_outbox_published,
}
use shiro_distributed_system.Cass.Outbox.{mark_outbox_published, publish_batch}
use shiro_distributed_system.Handler.{
  Server, handle_publish_event, acquire_guard, release_guard, admit, answer, append_and_publish,
  event_of, fill, is_known_event_type, publish_appended, validate_publish_request,
}
use shiro_distributed_system.Handler.Keeps.{id_of}
use shiro_distributed_system.Cass.Tables.{Tables, empty_tables}
use shiro_distributed_system.Cass.Calls.{marks, appends, run}
use shiro_distributed_system.Cass.Append.Durable.{IsStored, row_of}
use shiro_distributed_system.System.{Host, Node, cass_store, runtime, post_event}
use shiro_distributed_system.System.Delivered.{Accepts, Waits, relay_event-IsSettled}
use shiro_distributed_system.System.Durable.{post_event-durable}
use shiro_distributed_system.System.Once.{post_event-idempotent, stored_key}
use shiro_distributed_system.Cass.Calls.Cleaned.{StoreCall, calls, cleans, run_any, step_any}
use shiro_distributed_system.Cass.Cleanup.{
  cleanup_expired, cleanup_letters, delete_all, expired, cleanup_limit,
}
use shiro_distributed_system.Cass.Cleanup.Young.{IsDated}
use shiro_distributed_system.System.Keeps.{OthersCall, OthersSpare}
use shiro_distributed_system.Examples.Memory.{
  memory, memory-IsLawful, memory-IsReliable, order_event, connected, defaults,
}
use shiro_distributed_system.Examples.Publishing.{breaker}
use shiro_distributed_system.Examples.Handlers.{tokens_left, decode, request}

abbrev pub ticking : Host
ticking = record {
  Rest = ℕ;
  clock = λ n i. n + i;
  time_uuid = λ n. n;
  intn = λ n k. 0;
  tick = λ n. suc n;
}

abbrev pub node : Node memory
node = record {
  config = record defaults {
    reject_unknown_event_types = false;
    schema_version_rules = [];
    idempotency_ttl_hours = pos 1;
    schema_required_fields = [];
    publish_retry_max = pos 1;
    publish_retry_backoff_ms = pos 1;
    publish_retry_max_backoff_ms = pos 1;
  };
  host = ticking;
  session = connected;
  now = λ w. w.1;
  wait = λ d w. (true, (w.0, suc w.1));
  error_text = λ e. [];
  bus = record {
    publish = λ subject payload id w. (ok id, w);
    subscribe = λ subject w. (ok tt, w);
  };
  rate = tokens_left;
  decode = decode;
}

abbrev server_at : Tables → ℕ → Server (runtime memory node) tokens_left
server_at t n = record {
  lane = record { used = 0; capacity = 1 };
  limiter = new_subject_rate_limiter tokens_left 100 (pos 200) [];
  state = (breaker, (breaker, (t, n)));
}

abbrev first : Server (runtime memory node) tokens_left
first = server_at empty_tables 7

-- A cleanup of what is older than 5.
abbrev cleaning : List StoreCall
cleaning = cleans connected 5 5 (pos 10) ∷ []

abbrev second : Server (runtime memory node) tokens_left
second =
    server_at
      (run_any memory cleaning
        (post_event memory node none (codes "k1") request first).1.state.1.1.0)
      50

node-OthersCall : OthersCall memory node
unfolding run
node-OthersCall = record {
  publish_calls = λ subject payload id w. ([], refl);
  wait_calls = λ d w. ([], refl);
}

abbrev seven : Text
seven = 7 ∷ []

answers_first : id_of (post_event memory node none (codes "k1") request first).0 ≡ some seven
unfolding handle_publish_event acquire_guard release_guard admit answer append_and_publish event_of
    fill is_known_event_type publish_appended validate_publish_request bus_publish guarded longer
    publish_from publish_with_retry store_append_event_exactly_once store_mark_outbox_published
    with_store new_circuit_breaker failure success cass_store claim_key insert_created insert_event
    with_defaults append_new append_claimed append_keyed append_event_exactly_once existing_event
    is_outbox_published mark_outbox_published publish_batch lookup insert text_eq
    new_subject_rate_limiter limits bucket write scan record_failure max wrap64 ◌*ℤ◌ Breaker.allow
    SubjectLimiter.allow
answers_first = refl

answers_second : id_of (post_event memory node none (codes "k1") request second).0 ≡ some seven
unfolding handle_publish_event acquire_guard release_guard admit answer append_and_publish event_of
    fill is_known_event_type publish_appended validate_publish_request bus_publish guarded longer
    publish_from publish_with_retry store_append_event_exactly_once store_mark_outbox_published
    with_store new_circuit_breaker failure success cass_store claim_key insert_created insert_event
    with_defaults append_new append_claimed append_keyed append_event_exactly_once existing_event
    is_outbox_published mark_outbox_published publish_batch lookup insert text_eq
    new_subject_rate_limiter limits bucket write scan record_failure max wrap64 ◌*ℤ◌ Breaker.allow
    run_any step_any cleanup_expired cleanup_letters delete_all expired cleanup_limit
    SubjectLimiter.allow
answers_second = refl

-- The key is indexed at 9.
dated :
    IsDated
      (stored_key memory node (fill (codes "k1") request) first.state.1.1)
      5
      (post_event memory node none (codes "k1") request first).1.state.1.1.0
unfolding handle_publish_event acquire_guard release_guard admit answer append_and_publish event_of
    fill is_known_event_type publish_appended validate_publish_request bus_publish guarded longer
    publish_from publish_with_retry store_append_event_exactly_once store_mark_outbox_published
    with_store new_circuit_breaker failure success cass_store claim_key insert_created insert_event
    with_defaults append_new append_claimed append_keyed append_event_exactly_once existing_event
    is_outbox_published mark_outbox_published publish_batch lookup insert text_eq
    new_subject_rate_limiter limits bucket write scan record_failure max wrap64 ◌*ℤ◌ Breaker.allow
    SubjectLimiter.allow
dated = (refl, tt)

post_event-idempotent_example : seven ≡ seven
unfolding fill
post_event-idempotent_example =
    post_event-idempotent memory memory-IsLawful node node node-OthersCall none none (codes "k1")
      (codes "k1") request request first second cleaning 5 seven seven refl refl refl answers_first
      dated (omega arith, tt) refl answers_second

node-OthersSpare : OthersSpare memory node (λ e. memory.uuid_string e ≢ seven)
unfolding run
node-OthersSpare = record {
  publish_spares = λ subject payload id w. ([], tt, refl);
  wait_spares = λ d w. ([], tt, refl);
}

-- The publish is recorded a second time, another event comes, and all the keys are forgotten.
abbrev later : List StoreCall
later =
    calls (marks connected 60 seven (codes "b"))
    ∷ calls (appends connected (λ i. 70) 8 order_event)
    ∷ cleans connected 90 90 (pos 10)
    ∷ []

post_event-durable_example :
    let event = event_of 7 (fill (codes "k1") request) in
    (a : AppendResult) × ((append_event_exactly_once memory connected
        (λ i. 7 + i)
        7
        event
        empty_tables).0
      ≡ ok a)
    × (a.event.id ≡ seven)
    × ((a.duplicate ≡ true) ⊎ (a.event ≡ record (with_defaults 7 event) { id = seven }))
    × (h : ℕ) × (seven ≡ memory.uuid_string h)
    × IsStored h (row_of a.event) (
        run_any memory later (post_event memory node none (codes "k1") request first).1.state.1.1.0)
post_event-durable_example =
    post_event-durable memory memory-IsLawful node seven node-OthersSpare none (codes "k1") request
      first later (tt, ((λ e. ground (arith, e), tt), (tt, tt))) answers_first

node-Accepts : Accepts memory node
node-Accepts = record {
  accepts = λ subject payload id w. (id, refl);
  publish_quiet = λ subject payload id w. refl;
}

-- Event 7 of the outbox, whose lease ran out at 12.
abbrev relayed : EventRecord
relayed = record order_event { id = seven }

relayed-Waits : Waits 7 order_row 20 waiting
unfolding lookup
relayed-Waits = record { present = refl; free = (order_retry, refl, ground arith) }

relay_event-IsSettled_example :
    let st = cass_store memory ticking connected in
    let after =
      relay_event
        (runtime memory node)
        node.config
        node.bus
        st
        relayed
        (breaker, (breaker, (waiting, 20))) in
    let claimed =
      (claim_lease_of (runtime memory node) node.config st.advanced seven (waiting, 20)).1 in
    let sent = node.bus.publish relayed.subject relayed.payload seven claimed in
    (broker_id : Text) × (sent.0 ≡ ok broker_id)
    × (after.1.1 ≡ (st.mark_outbox_published seven broker_id sent.1).1)
    × IsSettled 7 order_row (node.host.clock sent.1.1 0) broker_id after.1.1.0
unfolding new_circuit_breaker
relay_event-IsSettled_example =
    relay_event-IsSettled memory memory-IsLawful memory-IsReliable node node-Accepts relayed 7
      order_row breaker breaker (waiting, 20) refl refl relayed-Waits refl refl
