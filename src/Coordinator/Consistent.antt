-- ===== src/Coordinator/Consistent.antt =====
-- The two stores of the view of the leader agree (internal/modules/etcdcoord/module.go).
use shiro_distributed_system.Common.{
  ◌≡◌, refl, Bool, true, false, not, ◌&&◌, ◌||◌, Text, text_eq, text_eq_iff, text_eq_refl, arith,
}
use shiro_distributed_system.Coordinator.{
  Coordinator, ElectionAt, ObserverAt, new, start, started, step_election, step_observer, step_stop,
  Event, Step, elects, observes, stops, interrupts, Reach, here, next,
}

abbrev raising : ElectionAt → Bool
raising ElectionAt.raised = true
raising _ = false

abbrev storing : ObserverAt → Bool
storing (ObserverAt.stored leader) = true
storing _ = false

abbrev names : Coordinator → Bool
names c = text_eq c.leader_id c.node_id

-- What the observer has stored is what it holds, unless the election has named this node since.
abbrev agrees : Coordinator → ObserverAt → Bool
agrees c (ObserverAt.stored leader) = text_eq c.leader_id leader || names c
agrees c _ = true

-- Neither goroutine is between its two stores.
abbrev pub is_settled : Coordinator → Bool
is_settled c = not (raising c.election) && not (storing c.observer)

abbrev IsConsistent : Coordinator → Type 0
IsConsistent c =
    ((not c.is_leader || names c || raising c.election || storing c.observer) ≡ true)
    × (agrees c c.observer ≡ true)

elects-IsConsistent :
    (wins : Bool) (c : Coordinator) → IsConsistent c → IsConsistent (step_election wins c)
unfolding step_election
elects-IsConsistent wins c h = ground (arith, text_eq_refl c.node_id)

observes-IsConsistent :
    (event : Event) (c : Coordinator) → IsConsistent c → IsConsistent (step_observer event c)
unfolding step_observer
observes-IsConsistent event c h = grind (text_eq_iff, text_eq_refl, arith)

stops-IsConsistent : (c : Coordinator) → IsConsistent c → IsConsistent (step_stop c)
unfolding step_stop
stops-IsConsistent c h = ground arith

Step-IsConsistent : {c d : Coordinator} → Step c d → IsConsistent c → IsConsistent d
Step-IsConsistent (elects wins c) h = elects-IsConsistent wins c h
Step-IsConsistent (observes event c) h = observes-IsConsistent event c h
Step-IsConsistent (stops c) h = stops-IsConsistent c h
Step-IsConsistent (interrupts c) h = h

Reach-IsConsistent : {c d : Coordinator} → Reach c d → IsConsistent c → IsConsistent d
Reach-IsConsistent here h = h
Reach-IsConsistent (next r s) h = Step-IsConsistent s (Reach-IsConsistent r h)

started-IsConsistent : (node_id : Text) → IsConsistent (started node_id)
unfolding start new
started-IsConsistent node_id = (refl, refl)

-- However the election, the observer, `Stop` and the context's end interleave: whenever neither
-- goroutine is between its two stores, a node that says it is the leader also names itself as the
-- leader.
pub Reach-names_itself :
    (node_id : Text) (c : Coordinator)
    → Reach (started node_id) c
    → is_settled c ≡ true
    → c.is_leader ≡ true
    → c.leader_id ≡ c.node_id
Reach-names_itself node_id c r settled leads =
    let (h, _) = Reach-IsConsistent r (started-IsConsistent node_id) in
    (text_eq_iff c.leader_id c.node_id).0 (ground arith)
