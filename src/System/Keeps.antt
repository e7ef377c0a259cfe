-- ===== src/System/Keeps.antt =====
-- What the tables keep through a request, and what an answer stands for (internal/core/app.go over
-- internal/modules/cassstore/module.go).
use shiro_distributed_system.Common.{ℕ, All, ◌≡◌, sym, subst, some, List, Text, ℤ, pos, arith, ok}
use shiro_distributed_system.GoMax.{max}
use shiro_distributed_system.Contracts.{EventRecord, AppendResult}
use shiro_distributed_system.Relay.{record_failure, millis}
use shiro_distributed_system.Handler.{Response, refused, queued, stored}
use shiro_distributed_system.Handler.Acknowledged.{IsBackedBy}
use shiro_distributed_system.Handler.Keeps.{AreKept, id_of, no_id}
use shiro_distributed_system.Cass.Tables.{Tables}
use shiro_distributed_system.Cass.Driver.{Cassandra, IsLawful}
use shiro_distributed_system.Cass.Append.{append_event_exactly_once}
use shiro_distributed_system.Cass.Calls.{Call, marks, fails, run, step}
use shiro_distributed_system.Cass.Calls.Kept.{IsKept, IsFresh, Any, All-IsFresh}
use shiro_distributed_system.Cass.Calls.Step.{step-keeps, run-keeps}
use shiro_distributed_system.System.{cass_advanced, cass_store, Node, runtime}

-- While the broker is called or a timer runs, others may call the store, and nothing else happens to
-- the tables.
pub record OthersCall (c : Cassandra) (n : Node c) : Type 0 where
  pub publish_calls :
      (subject payload id : Text) (w : c.Db × n.host.Rest)
      → (calls : List Call) × ((n.bus.publish subject payload id w).1.0 ≡ run c calls w.0)
  pub wait_calls :
      (d : ℤ) (w : c.Db × n.host.Rest) → (calls : List Call) × ((n.wait d w).1.0 ≡ run c calls w.0)

-- The same, and they append only events that are fresh.
pub record OthersSpare (c : Cassandra) (n : Node c) (Fresh : ℕ → Type 0) : Type 0 where
  pub publish_spares :
      (subject payload id : Text) (w : c.Db × n.host.Rest)
      → (calls : List Call) × All (IsFresh Fresh Any) calls
        × ((n.bus.publish subject payload id w).1.0 ≡ run c calls w.0)
  pub wait_spares :
      (d : ℤ) (w : c.Db × n.host.Rest)
      → (calls : List Call) × All (IsFresh Fresh Any) calls × ((n.wait d w).1.0 ≡ run c calls w.0)

OthersCall-OthersSpare : (c : Cassandra) (n : Node c) → OthersCall c n → OthersSpare c n Any
OthersCall-OthersSpare c n others = record {
  publish_spares = λ subject payload id w.
      let (calls, same) = others.publish_calls subject payload id w in
      (calls, All-IsFresh calls, same);
  wait_spares =
      λ d w. let (calls, same) = others.wait_calls d w in (calls, All-IsFresh calls, same);
}

module _ (c : Cassandra) (lawful : IsLawful c) where
  open c use {tables}

  -- What every call of the store but the appends of other events keeps is kept after the append of a
  -- request.
  pub AreKept-spared :
      (n : Node c) (Fresh : ℕ → Type 0) (others : OthersSpare c n Fresh) (I : Tables → Type 0)
      → IsKept I Fresh Any
      → AreKept (runtime c n) n.bus (cass_store c n.host n.session) (λ w. I (tables w.0))
  unfolding cass_store record_failure cass_advanced
  AreKept-spared n Fresh others I k = record {
    publish_keeps = λ subject payload id w h.
        let (calls, fresh, same) = others.publish_spares subject payload id w in
        subst (λ db. I (tables db)) (sym same) (run-keeps c lawful I Fresh Any k calls w.0 fresh h);
    wait_keeps = λ d w h.
        let (calls, fresh, same) = others.wait_spares d w in
        subst (λ db. I (tables db)) (sym same) (run-keeps c lawful I Fresh Any k calls w.0 fresh h);
    mark_keeps = λ id broker_id w h.
        unfold step in
        step-keeps c lawful I Fresh Any k (marks n.session (n.host.clock w.1 0) id broker_id) w.0 tt
          h;
    failure_keeps = λ cfg id e w h.
        unfold step in
        step-keeps c lawful I Fresh Any k
          (fails n.session (n.host.intn w.1) (n.host.clock w.1 0) id (n.error_text e)
            (millis (pos 50) cfg.outbox_backoff_base_ms)
            (millis (pos 200) cfg.outbox_backoff_max_ms) (max (pos 0) cfg.outbox_backoff_jitter_pct)
            (max (pos 1) cfg.outbox_quarantine_after))
          w.0 tt h;
  }

  -- What every call of the store keeps is kept after the append of a request.
  pub AreKept-cass :
      (n : Node c) (others : OthersCall c n) (I : Tables → Type 0)
      → IsKept I Any Any
      → AreKept (runtime c n) n.bus (cass_store c n.host n.session) (λ w. I (tables w.0))
  AreKept-cass n others = AreKept-spared n Any (OthersCall-OthersSpare c n others)

  -- A response with an identity speaks of an append that returned it.
  pub IsBackedBy-append :
      (n : Node c) (event : EventRecord) (w : c.Db × n.host.Rest) (r : Response) (id : Text)
      → IsBackedBy (cass_store c n.host n.session) event w r
      → id_of r ≡ some id
      → (a : AppendResult) × ((append_event_exactly_once c n.session
            (n.host.clock w.1)
            (n.host.time_uuid w.1)
            event
            w.0).0
          ≡ ok a)
        × (a.event.id ≡ id)
  unfolding cass_store
  IsBackedBy-append n event w (refused status) id backed given = absurd (no_id id given)
  IsBackedBy-append n event w (queued given_id q k) id (a, e, same) given =
      (a, e, ground (arith, same, given))
  IsBackedBy-append n event w (stored status given_event) id (a, e, (same, _)) given =
      (a, e, ground (arith, same, given))
