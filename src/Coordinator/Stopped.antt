-- ===== src/Coordinator/Stopped.antt =====
-- What is left of the view of the leader after `Stop` (internal/modules/etcdcoord/module.go).
use shiro_distributed_system.Common.{◌≡◌, refl, ◌∙◌, Bool, true, false, none, text_eq_refl, arith}
use shiro_distributed_system.Coordinator.{
  Coordinator, ElectionAt, ObserverAt, StopAt, step_election, step_observer, step_stop, Event,
  response, context_done, Step, elects, observes, stops, interrupts, Reach, here, next,
}

-- The goroutines have ended and `Stop` has returned.
abbrev pub IsHalted : Coordinator → Type 0
IsHalted c =
    (c.election ≡ ElectionAt.ended) × (c.observer ≡ ObserverAt.ended) × (c.stop ≡ StopAt.closed)

elects-IsHalted :
    (wins : Bool) (c : Coordinator)
    → IsHalted c
    → IsHalted (step_election wins c) × ((step_election wins c).is_leader ≡ c.is_leader)
unfolding step_election
elects-IsHalted wins c h = ground arith

observes-IsHalted :
    (event : Event) (c : Coordinator)
    → IsHalted c
    → IsHalted (step_observer event c) × ((step_observer event c).is_leader ≡ c.is_leader)
unfolding step_observer
observes-IsHalted event c h = ground arith

stops-IsHalted :
    (c : Coordinator)
    → IsHalted c
    → IsHalted (step_stop c) × ((step_stop c).is_leader ≡ c.is_leader)
unfolding step_stop
stops-IsHalted c h = ground arith

Step-IsHalted :
    {c d : Coordinator} → Step c d → IsHalted c → IsHalted d × (d.is_leader ≡ c.is_leader)
Step-IsHalted (elects wins c) h = elects-IsHalted wins c h
Step-IsHalted (observes event c) h = observes-IsHalted event c h
Step-IsHalted (stops c) h = stops-IsHalted c h
Step-IsHalted (interrupts c) h = (h, refl)

-- Once all has ended, nothing corrects the view of a node that has stopped.
Reach-IsHalted :
    {c d : Coordinator} → Reach c d → IsHalted c → IsHalted d × (d.is_leader ≡ c.is_leader)
Reach-IsHalted here h = (h, refl)
Reach-IsHalted (next r s) h =
    let (halted, same) = Reach-IsHalted r h in
    let (halted', same') = Step-IsHalted s halted in (halted', same' ∙ same)

-- The stop of a leader whose observer has just taken a response, up to the end of all parts.
stop_late : Coordinator → Coordinator
stop_late c = step_observer context_done (
    step_observer (response none)
      (step_observer (response none) (step_election false (step_stop (step_stop (step_stop c))))))

Reach-stop_late : (c : Coordinator) → Reach c (stop_late c)
unfolding stop_late
Reach-stop_late c =
    next
      (next
        (next (next (next (next (next here (stops _)) (stops _)) (stops _)) (elects false _))
          (observes _ _))
        (observes _ _))
      (observes _ _)

stop_late-leads :
    (c : Coordinator)
    → c.connected ≡ true
    → c.stop ≡ StopAt.idle
    → c.election ≡ ElectionAt.leading
    → c.observer ≡ ObserverAt.received c.node_id
    → IsHalted (stop_late c) × ((stop_late c).is_leader ≡ true)
unfolding stop_late step_observer step_election step_stop
stop_late-leads c on idle leading received = ground (arith, text_eq_refl c.node_id)

-- A node whose observer has taken the response that names it, when `Stop` is called, may be left a
-- leader: there is an end of the goroutines and of `Stop` in which it still says that it leads.
pub stop-leaves_leader :
    (c : Coordinator)
    → c.connected ≡ true
    → c.stop ≡ StopAt.idle
    → c.election ≡ ElectionAt.leading
    → c.observer ≡ ObserverAt.received c.node_id
    → (d : Coordinator) × Reach c d × IsHalted d × (d.is_leader ≡ true)
stop-leaves_leader c on idle leading received =
    let (halted, leads) = stop_late-leads c on idle leading received in
    (stop_late c, Reach-stop_late c, halted, leads)
