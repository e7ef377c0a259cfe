-- ===== src/AuthGuard.antt =====
-- The guard against repeated authentication failures of internal/core/app.go. The two Go maps are
-- association lists; a method returns the new guard.
pub mod PerIp
pub mod Lockout
use shiro_distributed_system.Common.{
  ℕ, suc, ◌+◌, Bool, true, false, Option, none, some, List, [], ◌∷◌, Text, ℤ, pos, pos_part, ltb,
  leb, if◌then◌else◌, get_or, text_key,
}
use shiro_distributed_system.Common.Assoc.{Map, lookup, insert, delete}
use shiro_distributed_system.GoMax.{max}

pub record AuthFailureGuard : Type 0 where
  pub max_failures : ℕ
  pub block_for : ℕ
  pub failures : Map Text ℕ
  pub blocked_till : Map Text ℕ

unfoldable pub new_auth_failure_guard : ℤ → ℕ → AuthFailureGuard
new_auth_failure_guard max_failures block_for = record {
  max_failures = pos_part (max (pos 1) max_failures);
  block_for = block_for;
  failures = [];
  blocked_till = [];
}

-- A time is after `until` when `until` is strictly less.
unfoldable pub is_blocked : AuthFailureGuard → Text → ℕ → AuthFailureGuard × Bool
is_blocked g ip now = elim (lookup ip g.blocked_till) [
  | none ↦ (g, false)
  | some until ↦
      if ltb until now
      then (
        record g { failures = delete ip g.failures; blocked_till = delete ip g.blocked_till },
        false,
      )
      else (g, true)
]

-- A missing key of a Go map reads as 0.
unfoldable pub failure : AuthFailureGuard → Text → ℕ → AuthFailureGuard
failure g ip now =
    let count = suc (get_or (lookup ip g.failures) 0) in
    let counted : AuthFailureGuard = record g { failures = insert ip count g.failures } in
    if leb g.max_failures count
    then record counted { blocked_till = insert ip (now + g.block_for) g.blocked_till }
    else counted

unfoldable pub success : AuthFailureGuard → Text → AuthFailureGuard
success g ip = record g { failures = delete ip g.failures; blocked_till = delete ip g.blocked_till }

-- The calls of the guard's clients, each for one address.
pub data Call : Type 0 where
  asks fails : ℕ → Call
  succeeds : Call

unfoldable pub step : AuthFailureGuard → Text × Call → AuthFailureGuard
step g (ip, asks now) = (is_blocked g ip now).0
step g (ip, fails now) = failure g ip now
step g (ip, succeeds) = success g ip

unfoldable pub run : AuthFailureGuard → List (Text × Call) → AuthFailureGuard
run g [] = g
run g (c ∷ cs) = run (step g c) cs
