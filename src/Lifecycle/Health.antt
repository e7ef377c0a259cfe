-- ===== src/Lifecycle/Health.antt =====
-- What a healthy answer means (internal/core/app.go).
use shiro_distributed_system.Common.{
  ◌≡◌, refl, Bool, true, ◌&&◌, List, [], ◌∷◌, Text, arith, map, if◌then◌else◌, text_key,
}
use shiro_distributed_system.Common.Assoc.{Map}
use shiro_distributed_system.Breaker.{CircuitBreaker}
use shiro_distributed_system.Interfaces.{Runtime}
use shiro_distributed_system.Lifecycle.{
  AppModule, ModuleStatus, check_module, check_modules, handle_health,
}

pub all_ready : List ModuleStatus → Bool
all_ready [] = true
all_ready (s ∷ ss) = s.is_ready && all_ready ss

module _ (rt : Runtime) where
  open rt use {World, now}

  check_module-name :
      (m : AppModule World) (s : Map Text CircuitBreaker × World)
      → (check_module rt m s).0.name ≡ m.name
  unfolding check_module
  check_module-name m s = ground arith

  check_modules-names :
      (ms : List (AppModule World)) (s : Map Text CircuitBreaker × World)
      → (map (λ r. r.name) (check_modules rt ms s).0.1 ≡ map (λ m. m.name) ms)
        × ((check_modules rt ms s).0.0 ≡ all_ready (check_modules rt ms s).0.1)
  unfolding check_modules all_ready
  check_modules-names [] s = (refl, refl)
  check_modules-names (m ∷ ms) s =
      let (names, ready) = check_modules-names ms (check_module rt m s).1 in
      (rw (check_module-name m s, names) refl, rw ready refl)

  -- /healthz and /readyz report every module once, in order, and answer 200 if all that they report is
  -- ready, else 503.
  handle_health-reports :
      (ms : List (AppModule World)) (s : Map Text CircuitBreaker × World)
      → let r = (handle_health rt ms s).0 in
        (map (λ x. x.name) r.1 ≡ map (λ m. m.name) ms)
        × (r.0 ≡ (if all_ready r.1 then 200 else 503))
  unfolding handle_health
  handle_health-reports ms s =
      let (names, ready) = check_modules-names ms s in (names, rw ready refl)
