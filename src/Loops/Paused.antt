-- ===== src/Loops/Paused.antt =====
-- A relay that is paused (internal/core/app.go).
use shiro_distributed_system.Common.{
  ◌≡◌, refl, sym, subst, Bool, true, false, not, ◌&&◌, Option, some, List, [], ◌∷◌, arith, codes,
  text_eq, trim_space, to_lower,
}
use shiro_distributed_system.Config.{Config}
use shiro_distributed_system.Contracts.{EventRecord}
use shiro_distributed_system.Interfaces.{Runtime, EventBus, EventStore}
use shiro_distributed_system.Relay.{State, relay_event}
use shiro_distributed_system.Admin.{HttpRequest, is_post, handle_outbox_relay_admin}
use shiro_distributed_system.Loops.{
  Turn, ticks, relays, asks, passes, ends, Relay, relay_turn, next_event, run_outbox_relay,
}

-- POST with the action `resume`.
abbrev pub is_resume : HttpRequest → Bool
is_resume r =
    is_post r && text_eq (trim_space (to_lower (r.query (codes "action")))) (codes "resume")

-- None of the turns resumes the relay.
unfoldable pub resumes_none : (rt : Runtime) → List (Turn rt) → Bool
resumes_none rt [] = true
resumes_none rt (asks r ∷ turns) = not (is_resume r) && resumes_none rt turns
resumes_none rt (_ ∷ turns) = resumes_none rt turns

module _ (rt : Runtime) where
  open rt use {World}

  handle_outbox_relay_admin-paused :
      (r : HttpRequest) → is_resume r ≡ false → (handle_outbox_relay_admin r true).1 ≡ true
  unfolding handle_outbox_relay_admin
  handle_outbox_relay_admin-paused r h = ground arith

  handle_outbox_relay_admin-pauses :
      (r : HttpRequest) (b : Bool)
      → r.method ≡ codes "POST"
      → text_eq (trim_space (to_lower (r.query (codes "action")))) (codes "pause") ≡ true
      → (handle_outbox_relay_admin r b).1 ≡ true
  unfolding handle_outbox_relay_admin text_eq
  handle_outbox_relay_admin-pauses r b post pause = rw (post, pause) refl

  module _ (cfg : Config) (bus : EventBus World) (store : EventStore World)
      (leads : Option (World → Bool)) where
    -- What the turns make of the state if no batch is started: the events of the one that is running
    -- are gone through one by one, and the rest of the world moves on.
    unfoldable pub finishes : List (Turn rt) → List EventRecord → State rt → State rt
    finishes [] batch s = s
    finishes (relays ∷ turns) [] s = finishes turns [] s
    finishes (relays ∷ turns) (evt ∷ batch) s =
        finishes turns batch (relay_event rt cfg bus store evt s)
    finishes (passes move ∷ turns) batch s = finishes turns batch (move s)
    finishes (_ ∷ turns) batch s = finishes turns batch s

    run_outbox_relay-finishes :
        (turns : List (Turn rt)) (ended : Bool) (batch : List EventRecord) (s : State rt)
        → resumes_none rt turns ≡ true
        → (run_outbox_relay rt cfg
            (some bus)
            (some store)
            leads
            turns
            (record { paused = true; ended = ended; batch = batch; state = s })).state
          ≡ finishes turns batch s
    unfolding run_outbox_relay relay_turn next_event resumes_none finishes
    run_outbox_relay-finishes [] ended batch s h = refl
    run_outbox_relay-finishes (ticks ∷ turns) ended batch s h =
        ground (arith, run_outbox_relay-finishes turns ended batch s h)
    run_outbox_relay-finishes (relays ∷ turns) ended [] s h =
        run_outbox_relay-finishes turns ended [] s h
    run_outbox_relay-finishes (relays ∷ turns) ended (evt ∷ batch) s h =
        run_outbox_relay-finishes turns ended batch (relay_event rt cfg bus store evt s) h
    run_outbox_relay-finishes (asks r ∷ turns) ended batch s h =
        subst
          (λ p.
            (run_outbox_relay rt cfg (some bus) (some store) leads turns
              (record { paused = p; ended = ended; batch = batch; state = s })).state
            ≡ finishes turns batch s)
          (sym (handle_outbox_relay_admin-paused r (ground arith)))
          (run_outbox_relay-finishes turns ended batch s (ground arith))
    run_outbox_relay-finishes (passes move ∷ turns) ended batch s h =
        run_outbox_relay-finishes turns ended batch (move s) h
    run_outbox_relay-finishes (ends ∷ turns) ended batch s h =
        run_outbox_relay-finishes turns true batch s h

    -- After POST /admin/outbox-relay with the action `pause`, in any case and with any space around
    -- it, the relay starts no batch until a request resumes it: whatever happens, in any order, all
    -- that it does is to go on with the events of the batch that is running when the request comes.
    pub pause-stops_relay :
        (r : HttpRequest) (turns : List (Turn rt)) (l : Relay rt)
        → r.method ≡ codes "POST"
        → text_eq (trim_space (to_lower (r.query (codes "action")))) (codes "pause") ≡ true
        → resumes_none rt turns ≡ true
        → (run_outbox_relay rt cfg (some bus) (some store) leads (asks r ∷ turns) l).state
          ≡ finishes turns l.batch l.state
    unfolding run_outbox_relay relay_turn
    pause-stops_relay r turns l post pause h =
        subst
          (λ p.
            (run_outbox_relay rt cfg (some bus) (some store) leads turns
              (record { paused = p; ended = l.ended; batch = l.batch; state = l.state })).state
            ≡ finishes turns l.batch l.state)
          (sym (handle_outbox_relay_admin-pauses r l.paused post pause))
          (run_outbox_relay-finishes turns l.ended l.batch l.state h)
