-- ===== src/Examples/Streams.antt =====
-- A message that the broker delivers twice to a client that follows the orders.
use shiro_distributed_system.Common.{◌≡◌, refl, true, some, List, [], ◌∷◌, codes}
use shiro_distributed_system.Contracts.{BusMessage}
use shiro_distributed_system.Cass.Tables.{empty_tables}
use shiro_distributed_system.Cass.Calls.Cleaned.{run_any}
use shiro_distributed_system.System.{cass_store, runtime}
use shiro_distributed_system.Stream.{Turn, arrives, takes, passes, empty_feed, run_stream}
use shiro_distributed_system.Stream.Once.{are_distinct, run_stream-are_distinct}
use shiro_distributed_system.Examples.Memory.{memory, memory-IsLawful, connected}
use shiro_distributed_system.Examples.Publishing.{breaker}
use shiro_distributed_system.Examples.Systems.{ticking, node}

abbrev order_message : BusMessage
order_message = record {
  subject = codes "events.orders";
  message_id = codes "m1";
  bytes = codes "{}";
  received_at = 3;
}

abbrev redelivery : List (Turn (runtime memory node))
redelivery = arrives order_message ∷ arrives order_message ∷ takes ∷ passes (λ s. s) ∷ takes ∷ []

run_stream-are_distinct_example :
    are_distinct
      (run_stream
        (runtime memory node)
        (some (cass_store memory ticking connected))
        (codes "sse:n1")
        redelivery
        (empty_feed, (breaker, (empty_tables, 7)))).0.written
    ≡ true
unfolding run_any
run_stream-are_distinct_example =
    run_stream-are_distinct memory memory-IsLawful node (codes "sse:n1") redelivery
      (breaker, (empty_tables, 7)) (tt, (tt, (tt, ((λ s. ([], refl)), (tt, tt)))))
