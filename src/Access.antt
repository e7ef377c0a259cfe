-- ===== src/Access.antt =====
-- Who may call an endpoint: `secure`, `bearerToken` and `contains` of internal/core/app.go.
pub mod Grants
use shiro_distributed_system.Common.{
  ℕ, zero, suc, ◌/◌, ◌≡◌, Bool, true, false, not, ◌&&◌, ◌||◌, Option, none, some, List, [], ◌∷◌,
  Text, ℤ, pos, ◌-ℤ◌, ltb_ℤ, text_eq, is_empty, trim_space, to_lower, has_prefix, codes,
  if◌then◌else◌, text_key,
}
use shiro_distributed_system.Common.Assoc.{Map, lookup}
use shiro_distributed_system.Config.{Config}
use shiro_distributed_system.AuthGuard.{AuthFailureGuard, is_blocked, failure, success}

-- The scopes that the routes are registered with.
pub data Scope : Type 0 where
  admin read rw_scope : Scope

pub data Access : Type 0 where
  serves : Access
  -- With the status of the response.
  refuses : ℕ → Access

-- What is left of a text after its first n characters.
abbrev drop : ℕ → Text → Text
drop zero s = s
drop (suc n) [] = []
drop (suc n) (_ ∷ s) = drop n s

unfoldable pub bearer_token : Text → Text
bearer_token h =
    if is_empty h
    then []
    else if not (has_prefix (to_lower h) (codes "bearer "))
    then []
    else trim_space (drop 7 h)

unfoldable pub contains : List Text → Text → Bool
contains [] value = false
contains (v ∷ list) value = text_eq (trim_space v) value || contains list value

abbrev is_nil : List Text → Bool
is_nil [] = true
is_nil (_ ∷ _) = false

-- Time.Unix of a time in nanoseconds since the zero time.
abbrev pub unix : ℕ → ℤ
unix now = pos (now / 1_000_000_000) -ℤ pos 62_135_596_800

abbrev expires : Option ℤ → ℕ → Bool
expires none now = false
expires (some at) now = ltb_ℤ at (unix now)

unfoldable pub is_expired : Config → Text → ℕ → Bool
is_expired cfg token now = expires (lookup token cfg.api_token_expirations) now

unfoldable pub is_allowed : Config → Scope → Text → Bool
is_allowed cfg admin token = contains cfg.api_admin_tokens token
is_allowed cfg read token =
    contains cfg.api_read_tokens token || contains cfg.api_admin_tokens token
is_allowed cfg rw_scope token =
    contains cfg.api_publish_tokens token
    || contains cfg.api_read_tokens token
    || contains cfg.api_admin_tokens token

abbrev pub has_no_tokens : Config → Bool
has_no_tokens cfg =
    is_empty cfg.api_bearer_token
    && is_nil cfg.api_admin_tokens
    && is_nil cfg.api_publish_tokens
    && is_nil cfg.api_read_tokens

-- `clock` gives the times that the guard, the expiry and a failure read, in this order; the header is
-- the value of `Authorization`.
unfoldable pub secure :
    Config → Scope → (ℕ → ℕ) → Text → Text → AuthFailureGuard → Access × AuthFailureGuard
secure cfg scope clock ip header g =
    let asked = is_blocked g ip (clock 0) in
    let token = bearer_token header in
    let fails = failure asked.0 ip (clock 2) in
    let succeeds = success asked.0 ip in
    if cfg.disable_api_token_auth
    then (serves, g)
    else if asked.1
    then (refuses 429, asked.0)
    else if is_empty token && has_no_tokens cfg
    then (serves, asked.0)
    else if is_empty token
    then (refuses 401, fails)
    else if is_expired cfg token (clock 1)
    then (refuses 401, fails)
    else if not (is_empty cfg.api_bearer_token) && text_eq token cfg.api_bearer_token
    then (serves, succeeds)
    else if is_allowed cfg scope token
    then (serves, succeeds)
    else (refuses 403, fails)
