-- ===== src/Lifecycle/Starts.antt =====
-- How often a module is started (internal/core/app.go).
use shiro_distributed_system.Common.{
  ◌≡◌, ◌≢◌, inl, inr, refl, ap, sym, ◌∙◌, ℕ, zero, suc, ◌+◌, ◌-◌, ◌≤◌, min, Bool, true, false,
  Option, List, [], ◌∷◌, ◌++◌, ℤ, pos, pos_part, arith, ltb, leb, ok, err, Result, Result-cases,
}
use shiro_distributed_system.GoMax.{max, max_floor}
use shiro_distributed_system.Config.{Config}
use shiro_distributed_system.Contracts.{Error}
use shiro_distributed_system.Interfaces.{Runtime}
use shiro_distributed_system.Relay.{millis}
use shiro_distributed_system.Lifecycle.{
  AppModule, next_wait, start_from, start_module_with_retry, start_modules, run_app,
}

abbrev pub is_ok : Result Error (Unit {0}) → Bool
is_ok (ok _) = true
is_ok (err _) = false

-- The number of times that `Start` is tried, as configured.
abbrev pub max_attempts : Config → ℕ
max_attempts cfg = pos_part (max (pos 1) cfg.module_start_retry_max)

-- `calls` counts the starts; the first `failures` of them fail and the others succeed; every timer
-- fires.
pub record FailsFirst (rt : Runtime) (m : AppModule rt.World) (calls : rt.World → ℕ) (failures : ℕ)
    : Type 0 where
  pub start_counts : (w : rt.World) → calls (m.start w).1 ≡ suc (calls w)
  pub start_answers : (w : rt.World) → is_ok (m.start w).0 ≡ leb failures (calls w)
  pub wait_counts : (d : ℤ) (w : rt.World) → calls (rt.wait d w).1 ≡ calls w
  pub wait_fires : (d : ℤ) (w : rt.World) → (rt.wait d w).0 ≡ true

module _ (rt : Runtime) (m : AppModule rt.World) (calls : rt.World → ℕ) (failures : ℕ)
    (fails : FailsFirst rt m calls failures) where
  open rt use {World}

  start_from-value :
      (left : ℕ) (wait : ℤ) (w : World)
      → calls w ≤ failures
      → (is_ok (start_from rt m left wait w).0 ≡ leb failures (calls w + left))
        × (calls (start_from rt m left wait w).1 ≡ suc (min failures (calls w + left)))
  unfolding start_from
  start_from-value zero wait w h = ground (arith, fails.start_counts w, fails.start_answers w)
  start_from-value (suc left) wait w h =
      let r = m.start w in
      let slept = rt.wait wait r.1 in
      elim (Result-cases r.0) [
        | inl (u, e) ↦
            let yes_at = ap is_ok e in
            rw (e, start_from) (ground (arith, yes_at, fails.start_counts w, fails.start_answers w))
        | inr (x, e) ↦
            let no_at = ap is_ok e in
            let more : calls slept.1 ≤ failures = ground (
              arith,
              no_at,
              fails.start_counts w,
              fails.start_answers w,
              fails.wait_counts wait r.1,
            ) in
            rw (e, fails.wait_fires wait r.1, start_from)
              (ground (
                arith,
                fails.start_counts w,
                fails.wait_counts wait r.1,
                start_from-value left (next_wait wait) slept.1 more,
              ))
      ]

  -- Starting a module with retries, for a module that fails a number of times and then starts: it is
  -- started exactly when that number is below the configured attempts, which are at least 1; and
  -- `Start` is called once more than it fails, or as often as configured if that is less.
  pub start_module_with_retry-value :
      (cfg : Config) (w : World)
      → calls w ≡ 0
      → let r = start_module_with_retry rt cfg m w in
        (is_ok r.0 ≡ ltb failures (max_attempts cfg))
        × (calls r.1 ≡ min (suc failures) (max_attempts cfg))
  unfolding start_module_with_retry
  start_module_with_retry-value cfg w fresh = ground (
    arith,
    fresh,
    max_floor 1 cfg.module_start_retry_max,
    start_from-value (max_attempts cfg - 1) (millis (pos 100) cfg.module_start_retry_backoff_ms) w
        (ground (arith, fresh)),
  )

module _ (rt : Runtime) (cfg : Config) where
  open rt use {World}

  not_ok : false ≢ true
  not_ok e = cc

  start_modules-failed :
      (ms ms' : List (AppModule World)) (m : AppModule World) (w : World) (e : Error)
      → (start_modules rt cfg ms w).0 ≡ ok tt
      → let failed = start_module_with_retry rt cfg m (start_modules rt cfg ms w).1 in
        failed.0 ≡ err e → start_modules rt cfg (ms ++ m ∷ ms') w ≡ failed
  unfolding start_modules
  start_modules-failed [] ms' m w e done fails = rw (fails, start_modules) refl
  start_modules-failed (m' ∷ ms) ms' m w e done fails =
      let r = start_module_with_retry rt cfg m' w in
      elim (Result-cases r.0) [
        | inl (u, e') ↦
            rw (e', start_modules)
              (start_modules-failed ms ms' m r.1 e (rw (e', start_modules) at done)
                (rw (e', start_modules) at fails))
        | inr (x, e') ↦
            absurd (not_ok (sym (ap is_ok e') ∙ ap is_ok (rw (e', start_modules) at done)))
      ]

  -- If a module cannot be started, `Run` returns its error with the world as the last attempt leaves
  -- it: the modules that were started before it are not stopped, and those after it are not started.
  run_app-failed :
      (serve : World → Option Error × World) (ms ms' : List (AppModule World)) (m : AppModule World)
      (w : World) (e : Error)
      → (start_modules rt cfg ms w).0 ≡ ok tt
      → let failed = start_module_with_retry rt cfg m (start_modules rt cfg ms w).1 in
        failed.0 ≡ err e → run_app rt cfg serve (ms ++ m ∷ ms') w ≡ failed
  unfolding run_app
  run_app-failed serve ms ms' m w e done fails =
      let same = start_modules-failed ms ms' m w e done fails in
      rw (ap (λ r. r.0) same ∙ fails, run_app) same
