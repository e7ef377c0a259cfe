-- ===== src/AuthGuard/PerIp.antt =====
-- The guard refines one counter and one deadline for each address (internal/core/app.go).
use shiro_distributed_system.Common.{
  ℕ, suc, ◌+◌, ◌≡◌, refl, Option, none, some, List, [], ◌∷◌, Text, ltb, leb, arith, if◌then◌else◌,
  get_or, text_key, text_eq, text_eq_iff,
}
use shiro_distributed_system.Common.Assoc.{lookup, lookup-insert, lookup-delete}
use shiro_distributed_system.AuthGuard.{
  AuthFailureGuard, is_blocked, failure, success, Call, asks, fails, succeeds, step, run,
}

-- What the guard knows of one address.
pub record Record : Type 0 where
  pub count : ℕ
  pub until : Option ℕ

abbrev pub view : AuthFailureGuard → Text → Record
view g ip = record { count = get_or (lookup ip g.failures) 0; until = lookup ip g.blocked_till }

abbrev pub clean : Record
clean = record { count = 0; until = none }

-- The specification of a call, for the address that it names.
unfoldable pub spec_step : ℕ → ℕ → Record → Call → Record
spec_step most block r (asks now) = elim r.until [
  | none ↦ r
  | some u ↦ if ltb u now then clean else r
]
spec_step most block r (fails now) =
    if leb most (suc r.count)
    then record { count = suc r.count; until = some (now + block) }
    else record r { count = suc r.count }
spec_step most block r succeeds = clean

-- Only the calls for the address count.
unfoldable pub spec_run : ℕ → ℕ → Text → Record → List (Text × Call) → Record
spec_run most block ip r [] = r
spec_run most block ip r ((j, c) ∷ cs) =
    spec_run most block ip (if text_eq j ip then spec_step most block r c else r) cs

failure-view :
    (g : AuthFailureGuard) (ip j : Text) (now : ℕ)
    → view (failure g j now) ip ≡ (
        if text_eq j ip
        then spec_step g.max_failures g.block_for (view g ip) (fails now)
        else view g ip)
unfolding failure spec_step
failure-view g ip j now = ground (
  arith,
  text_eq_iff j ip,
  lookup-insert j ip (suc (get_or (lookup j g.failures) 0)) g.failures,
  lookup-insert j ip (now + g.block_for) g.blocked_till,
)

success-view :
    (g : AuthFailureGuard) (ip j : Text)
    → view (success g j) ip ≡ (if text_eq j ip then clean else view g ip)
unfolding success
success-view g ip j =
    ground (arith, lookup-delete j ip g.failures, lookup-delete j ip g.blocked_till)

asks-view :
    (g : AuthFailureGuard) (ip j : Text) (now : ℕ)
    → view (is_blocked g j now).0 ip ≡ (
        if text_eq j ip
        then spec_step g.max_failures g.block_for (view g ip) (asks now)
        else view g ip)
unfolding is_blocked spec_step
asks-view g ip j now =
    ground
      (arith, text_eq_iff j ip, lookup-delete j ip g.failures, lookup-delete j ip g.blocked_till)

pub step-view :
    (g : AuthFailureGuard) (ip : Text) (c : Text × Call)
    → view (step g c) ip
      ≡ (if text_eq c.0 ip then spec_step g.max_failures g.block_for (view g ip) c.1 else view g ip)
unfolding step spec_step
step-view g ip (j, asks now) = asks-view g ip j now
step-view g ip (j, fails now) = failure-view g ip j now
step-view g ip (j, succeeds) = success-view g ip j

pub step_config :
    (g : AuthFailureGuard) (c : Text × Call)
    → ((step g c).max_failures ≡ g.max_failures) × ((step g c).block_for ≡ g.block_for)
unfolding step is_blocked failure success
step_config g (j, asks now) = ground arith
step_config g (j, fails now) = ground arith
step_config g (j, succeeds) = ground arith

-- After any sequence of calls, for whatever addresses, what the guard knows of an address is what
-- the specification computes from the calls for that address alone.
pub run-view :
    (g : AuthFailureGuard) (ip : Text) (cs : List (Text × Call))
    → view (run g cs) ip ≡ spec_run g.max_failures g.block_for ip (view g ip) cs
unfolding run spec_run
run-view g ip [] = refl
run-view g ip (c ∷ cs) =
    ground (arith, step-view g ip c, step_config g c, run-view (step g c) ip cs)
