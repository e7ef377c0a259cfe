-- ===== src/Lifecycle.antt =====
-- The modules of the application over its life: `New`'s breakers, `startModuleWithRetry`, `Run` and
-- the handlers of status (internal/core/app.go).
pub mod Starts
pub mod Health
use shiro_distributed_system.Common.{
  ℕ, zero, suc, ◌-◌, Bool, true, false, ◌&&◌, Option, none, some, List, [], ◌∷◌, Text, ℤ, pos,
  pos_part, ◌*ℤ◌, wrap64, ltb_ℤ, codes, if◌then◌else◌, Result, ok, err, text_key,
}
use mathlib.Core.List.{reverse}
use shiro_distributed_system.Common.Assoc.{Map, lookup, insert}
use shiro_distributed_system.GoMax.{max}
use shiro_distributed_system.Config.{Config}
use shiro_distributed_system.Contracts.{Error, context_done}
use shiro_distributed_system.Monad.{M}
use shiro_distributed_system.Breaker.{CircuitBreaker, new_circuit_breaker, allow, success, failure}
use shiro_distributed_system.Interfaces.{Runtime}
use shiro_distributed_system.Relay.{millis}

-- A module's life, as the interface `Module` of internal/modules/contracts.go.
pub record AppModule (World : Type 0) : Type 0 where
  pub name : Text
  pub start : M World (Unit {0})
  pub ready : M World (Unit {0})
  pub stop : M World (Unit {0})

abbrev ten_seconds : ℤ
ten_seconds = pos 10_000_000_000

-- The wait after the next failed start.
unfoldable pub next_wait : ℤ → ℤ
next_wait wait =
    let d = wrap64 (wait *ℤ pos 2) in
    if ltb_ℤ wait ten_seconds then if ltb_ℤ ten_seconds d then ten_seconds else d else wait

-- The breaker that `New` makes for a module.
unfoldable pub module_breaker : Config → Text → CircuitBreaker
module_breaker cfg name =
    new_circuit_breaker name (max (pos 1) cfg.circuit_failure_threshold)
      (pos_part (millis (pos 1000) cfg.circuit_open_ms))
      (max (pos 1) cfg.circuit_half_open_successes)

pub record ModuleStatus : Type 0 where
  pub name : Text
  pub is_ready : Bool
  pub error : Text

module _ (rt : Runtime) where
  open rt use {World, now}

  -- `moduleBreakers`.
  unfoldable pub module_breakers : Config → List (AppModule World) → Map Text CircuitBreaker
  unfolding module_breaker
  module_breakers cfg [] = []
  module_breakers cfg (m ∷ ms) = insert m.name (module_breaker cfg m.name) (module_breakers cfg ms)

  -- The attempts to start: the number says how many may follow a failure of this one.
  unfoldable pub start_from : AppModule World → ℕ → ℤ → M World (Unit {0})
  start_from m zero wait w = m.start w
  start_from m (suc left) wait w =
      let r = m.start w in
      let slept = rt.wait wait r.1 in
      let rest = start_from m left (next_wait wait) slept.1 in
      elim r.0 [ ok _ ↦ r | err e ↦ if slept.0 then rest else (err context_done, slept.1) ]

  unfoldable pub start_module_with_retry : Config → AppModule World → M World (Unit {0})
  unfolding start_from
  start_module_with_retry cfg m =
      start_from m (pos_part (max (pos 1) cfg.module_start_retry_max) - 1)
        (millis (pos 100) cfg.module_start_retry_backoff_ms)

  unfoldable pub start_modules : Config → List (AppModule World) → M World (Unit {0})
  unfolding start_module_with_retry
  start_modules cfg [] w = (ok tt, w)
  start_modules cfg (m ∷ ms) w =
      let r = start_module_with_retry cfg m w in
      let rest = start_modules cfg ms r.1 in elim r.0 [ ok _ ↦ rest | err e ↦ r ]

  -- The errors of `Stop` end in the log.
  unfoldable pub stop_modules : List (AppModule World) → World → World
  stop_modules [] w = w
  stop_modules (m ∷ ms) w = stop_modules ms (m.stop w).1

  -- `Run`: `serve` is what happens from `started` on until the context is done, or until the server
  -- fails to listen.
  unfoldable pub run_app :
      Config → (World → Option Error × World) → List (AppModule World) → M World (Unit {0})
  unfolding start_modules stop_modules
  run_app cfg serve ms w =
      let started = start_modules cfg ms w in
      let served = serve started.1 in
      elim started.0 [
        | err e ↦ started
        | ok _ ↦ elim served.0 [
          | some e ↦ (err e, served.1)
          | none ↦ (ok tt, stop_modules (reverse ms) served.1)
        ]
      ]

  -- The breaker of a module, after a call.
  abbrev put : Text → Option CircuitBreaker → Map Text CircuitBreaker → Map Text CircuitBreaker
  put name none breakers = breakers
  put name (some b) breakers = insert name b breakers

  abbrev ask : Option CircuitBreaker → ℕ → Option CircuitBreaker × Bool
  ask none now = (none, true)
  ask (some b) now = let r = allow b now in (some r.0, r.1)

  abbrev told : Result Error (Unit {0}) → ℕ → Option CircuitBreaker → Option CircuitBreaker
  told r now none = none
  told (ok _) now (some b) = some (success b)
  told (err _) now (some b) = some (failure b now)

  abbrev status_of : Text → Result Error (Unit {0}) → ModuleStatus
  status_of name (ok _) = record { name = name; is_ready = true; error = [] }
  status_of name (err e) = record { name = name; is_ready = false; error = rt.error_text e }

  -- A turn of the loop of `handleHealth`; the latency is left out.
  unfoldable pub check_module :
      AppModule World
      → Map Text CircuitBreaker × World
      → ModuleStatus × (Map Text CircuitBreaker × World)
  check_module m (breakers, w) =
      let asked = ask (lookup m.name breakers) (now w) in
      let r = m.ready w in
      if asked.1
      then (status_of m.name r.0, (put m.name (told r.0 (now r.1) asked.0) breakers, r.1))
      else (
        record { name = m.name; is_ready = false; error = codes "circuit open" },
        (put m.name asked.0 breakers, w),
      )

  -- Whether all are ready, and the statuses.
  unfoldable pub check_modules :
      List (AppModule World)
      → Map Text CircuitBreaker × World
      → (Bool × List ModuleStatus) × (Map Text CircuitBreaker × World)
  unfolding check_module
  check_modules [] s = ((true, []), s)
  check_modules (m ∷ ms) s =
      let r = check_module m s in
      let rest = check_modules ms r.1 in ((r.0.is_ready && rest.0.0, r.0 ∷ rest.0.1), rest.1)

  -- The status code and the statuses.
  unfoldable pub handle_health :
      List (AppModule World)
      → Map Text CircuitBreaker × World
      → (ℕ × List ModuleStatus) × (Map Text CircuitBreaker × World)
  unfolding check_modules
  handle_health ms s = let r = check_modules ms s in ((if r.0.0 then 200 else 503, r.0.1), r.1)

-- /startupz: the status, from `started`.
unfoldable pub handle_startup : Bool → ℕ
handle_startup started = if started then 200 else 503

-- /leaderz: whether the node leads and the leader's name, from what the coordinator says.
unfoldable pub handle_leader : Option (Bool × Text) → Bool × Text
handle_leader none = (false, [])
handle_leader (some said) = said
