-- ===== src/Examples/Coordination.antt =====
-- A node that wins its election, and one that is stopped as it learns of it.
use shiro_distributed_system.Common.{◌≡◌, refl, true, some, none, codes}
use shiro_distributed_system.Coordinator.{
  Coordinator, new, start, started, step_election, step_observer, response, elects, Reach, here,
  next,
}
use shiro_distributed_system.Coordinator.Consistent.{Reach-names_itself}
use shiro_distributed_system.Coordinator.Stopped.{IsHalted, stop-leaves_leader}

-- The election runs to its end.
abbrev winner : Coordinator
winner =
    step_election true
      (step_election true (step_election true (step_election true (started (codes "n1")))))

winner-Reach : Reach (started (codes "n1")) winner
winner-Reach =
    next (next (next (next here (elects true _)) (elects true _)) (elects true _)) (elects true _)

-- The observer then takes a response that names the node.
abbrev told : Coordinator
told = step_observer (response (some (codes "n1"))) (step_observer (response none) winner)

Reach-names_itself_example : winner.leader_id ≡ winner.node_id
unfolding step_election start new
Reach-names_itself_example = Reach-names_itself (codes "n1") winner winner-Reach refl refl

stop-leaves_leader_example : (d : Coordinator) × Reach told d × IsHalted d × (d.is_leader ≡ true)
unfolding step_election step_observer start new
stop-leaves_leader_example = stop-leaves_leader told refl refl refl refl
