-- ===== src/AuthGuard/Lockout.antt =====
-- When an address is locked out, and for how long (internal/core/app.go).
use shiro_distributed_system.Common.{
  ℕ, suc, ◌+◌, ◌≡◌, Bool, false, Option, none, some, List, [], ◌∷◌, Text, leb, arith, text_key,
  text_eq_refl, length, ◌&&◌, if◌then◌else◌,
}
use shiro_distributed_system.AuthGuard.PerIp.{Record, view, clean, spec_step, spec_run, run-view}
use shiro_distributed_system.AuthGuard.{AuthFailureGuard, is_blocked, Call, fails, run}

-- Failures of one address, at the given times and then at `last`.
abbrev pub failing : Text → List ℕ → ℕ → List (Text × Call)
failing ip [] last = (ip, fails last) ∷ []
failing ip (t ∷ ts) last = (ip, fails t) ∷ failing ip ts last

abbrev in_force : Option ℕ → ℕ → Bool
in_force none now = false
in_force (some until) now = leb now until

is_blocked-view :
    (g : AuthFailureGuard) (ip : Text) (now : ℕ)
    → (is_blocked g ip now).1 ≡ in_force (view g ip).until now
unfolding is_blocked
is_blocked-view g ip now = ground arith

-- Only the last failure's deadline is left, if the failures reach the maximum.
spec_run-failing :
    (most block : ℕ) (ip : Text) (r : Record) (ts : List ℕ) (last : ℕ)
    → (spec_run most block ip r (failing ip ts last)).until
      ≡ (if leb most (suc (r.count + length ts)) then some (last + block) else r.until)
unfolding spec_run spec_step
spec_run-failing most block ip r [] last = ground (arith, text_eq_refl ip)
spec_run-failing most block ip r (t ∷ ts) last = ground (
  arith,
  text_eq_refl ip,
  spec_run-failing most block ip (spec_step most block r (fails t)) ts last,
)

-- An address with a clean record that fails at the times `ts` and then at `last` is refused at a
-- later moment `now` exactly if the failures are at least as many as the maximum and `now` is not
-- after the end of the block, which runs from the last failure.
pub is_blocked-failing :
    (g : AuthFailureGuard) (ip : Text) (ts : List ℕ) (last now : ℕ)
    → view g ip ≡ clean
    → (is_blocked (run g (failing ip ts last)) ip now).1
      ≡ leb g.max_failures (suc (length ts)) && leb now (last + g.block_for)
is_blocked-failing g ip ts last now h = ground (
  arith,
  is_blocked-view (run g (failing ip ts last)) ip now,
  run-view g ip (failing ip ts last),
  spec_run-failing g.max_failures g.block_for ip clean ts last,
)
