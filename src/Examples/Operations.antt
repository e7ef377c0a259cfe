-- ===== src/Examples/Operations.antt =====
-- Requests of administration and the loops, over a cluster in memory.
use shiro_distributed_system.Common.{
  ◌≡◌, refl, false, ◌+◌, some, none, [], ◌∷◌, Text, codes, pos, text_eq, trim_space, to_lower,
  if◌then◌else◌, arith,
}
use shiro_distributed_system.Common.Assoc.{lookup}
use shiro_distributed_system.Common.Decimal.{decimal}
use shiro_distributed_system.Cass.Append.Keys.{holder}
use shiro_distributed_system.Cass.DeadLetters.Replay.{IsRequeued}
use shiro_distributed_system.GoMax.{max}
use shiro_distributed_system.Admin.{HttpRequest, replayed, limit_of, handle_replay_dead_letter}
use shiro_distributed_system.Admin.Effects.{handle_replay_dead_letter-IsRequeued}
use shiro_distributed_system.Admin.Limits.{limit_of-decimal}
use shiro_distributed_system.System.{cass_store, runtime}
use shiro_distributed_system.Loops.{
  ticks, relays, asks, ends, Relay, run_outbox_relay, cleanup_turn,
}
use shiro_distributed_system.Relay.{relay_event}
use shiro_distributed_system.Loops.Paused.{finishes, resumes_none, pause-stops_relay}
use shiro_distributed_system.Loops.Retention.{hour, cleanup_turn-holder}
use shiro_distributed_system.Examples.Appends.{indexed}
use shiro_distributed_system.Examples.Deliveries.{order_row, order_dead, buried}
use shiro_distributed_system.Examples.Memory.{
  memory, memory-IsLawful, memory-IsReliable, connected, order_event,
}
use shiro_distributed_system.Examples.Publishing.{counting, broker, store, settings, breaker}
use shiro_distributed_system.Examples.Systems.{ticking, node}

abbrev pub asks_for : Text → Text → Text → HttpRequest
asks_for method name value = record {
  method = method;
  query = λ n. if text_eq n name then value else [];
}

abbrev pausing : HttpRequest
pausing = asks_for (codes "POST") (codes "action") (codes " Pause ")

-- An event of the batch is left when the pause comes.
abbrev relay : Relay counting
relay = record {
  paused = false;
  ended = false;
  batch = order_event ∷ [];
  state = (breaker, (breaker, (0, 0)));
}

pause-stops_relay_example :
    (run_outbox_relay counting settings
      (some broker)
      (some store)
      none
      (asks pausing ∷ ticks ∷ relays ∷ ticks ∷ relays ∷ ends ∷ [])
      relay).state
    ≡ relay_event counting settings broker store order_event (breaker, (breaker, (0, 0)))
unfolding text_eq trim_space to_lower resumes_none finishes
pause-stops_relay_example =
    pause-stops_relay counting settings broker store none pausing
      (ticks ∷ relays ∷ ticks ∷ relays ∷ ends ∷ []) relay refl refl refl

abbrev idle : Relay counting
idle = record relay { batch = [] }

limit_of-decimal_example : limit_of (asks_for (codes "GET") (codes "limit") (decimal 25)) ≡ pos 25
unfolding text_eq
limit_of-decimal_example =
    limit_of-decimal (asks_for (codes "GET") (codes "limit") (decimal 25)) 25 refl

abbrev replaying : HttpRequest
replaying = asks_for (codes "POST") (codes "id") (7 ∷ [])

handle_replay_dead_letter-IsRequeued_example :
    let done =
      handle_replay_dead_letter
        (some (cass_store memory ticking connected))
        replaying
        (buried, 50) in
    (done.0 ≡ replayed (7 ∷ [])) × IsRequeued 7 order_dead 5 50 done.1.0
unfolding text_eq trim_space lookup
handle_replay_dead_letter-IsRequeued_example =
    handle_replay_dead_letter-IsRequeued memory memory-IsLawful memory-IsReliable node replaying 7
      order_dead order_row (buried, 50) refl refl refl refl refl refl

cleanup_turn-holder_example :
    holder
      (codes "orders", codes "order-1")
      (cleanup_turn
        (runtime memory node)
        node.config
        (some (cass_store memory ticking connected))
        (indexed, 20 + hour)).0
    ≡ some 7
unfolding holder lookup text_eq max
cleanup_turn-holder_example =
    cleanup_turn-holder memory memory-IsLawful node (codes "orders", codes "order-1") 7
      (indexed, 20 + hour) (ground arith) (refl, tt) refl
