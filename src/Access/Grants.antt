-- ===== src/Access/Grants.antt =====
-- What `secure` serves and what it does to the guard (internal/core/app.go).
use shiro_distributed_system.Common.{
  ℕ, ◌≡◌, ◌↔◌, inl, inr, Bool, true, false, not, ◌&&◌, ◌||◌, List, [], ◌∷◌, Text, arith, text_eq,
  text_eq_iff, is_empty, trim_space, Bool-cases,
}
use shiro_distributed_system.Config.{Config}
use shiro_distributed_system.AuthGuard.{AuthFailureGuard, is_blocked}
use shiro_distributed_system.Access.{
  Scope, admin, read, rw_scope, serves, bearer_token, contains, is_expired, is_allowed,
  has_no_tokens, secure,
}

-- The token is in the list, but for the space around the list's entry.
pub data Listed (token : Text) : List Text → Type 0 where
  here : {v : Text} {list : List Text} → trim_space v ≡ token → Listed token (v ∷ list)
  there : {v : Text} {list : List Text} → Listed token list → Listed token (v ∷ list)

contains→Listed : (list : List Text) (token : Text) → contains list token ≡ true → Listed token list
unfolding contains
contains→Listed [] token h = ground arith
contains→Listed (v ∷ list) token h = elim (Bool-cases (text_eq (trim_space v) token)) [
  | inl e ↦ here ((text_eq_iff (trim_space v) token).0 e)
  | inr e ↦ there (contains→Listed list token (ground arith))
]

-- The lists that the documentation gives to a scope.
pub data Grants (cfg : Config) (token : Text) : Scope → Type 0 where
  bearer : {scope : Scope} → cfg.api_bearer_token ≡ token → Grants cfg token scope
  administrates : {scope : Scope} → Listed token cfg.api_admin_tokens → Grants cfg token scope
  reads : Listed token cfg.api_read_tokens → Grants cfg token read
  reads_writes : Listed token cfg.api_read_tokens → Grants cfg token rw_scope
  publishes : Listed token cfg.api_publish_tokens → Grants cfg token rw_scope

is_allowed→Grants :
    (cfg : Config) (scope : Scope) (token : Text)
    → is_allowed cfg scope token ≡ true
    → Grants cfg token scope
unfolding is_allowed
is_allowed→Grants cfg admin token h = administrates (contains→Listed _ token h)
is_allowed→Grants cfg read token h = elim (Bool-cases (contains cfg.api_read_tokens token)) [
  | inl e ↦ reads (contains→Listed _ token e)
  | inr e ↦ administrates (contains→Listed _ token (ground arith))
]
is_allowed→Grants cfg rw_scope token h = elim (Bool-cases (contains cfg.api_publish_tokens token)) [
  | inl e ↦ publishes (contains→Listed _ token e)
  | inr e ↦ elim (Bool-cases (contains cfg.api_read_tokens token)) [
    | inl e' ↦ reads_writes (contains→Listed _ token e')
    | inr e' ↦ administrates (contains→Listed _ token (ground arith))
  ]
]

Listed→contains : (list : List Text) (token : Text) → Listed token list → contains list token ≡ true
unfolding contains
Listed→contains [] token l = elim l [ ]
Listed→contains (v ∷ list) token (here e) = ground (arith, (text_eq_iff (trim_space v) token).1 e)
Listed→contains (v ∷ list) token (there l) = ground (arith, Listed→contains list token l)

-- The test of `secure` on the token.
abbrev pub passes : Config → Scope → Text → Bool
passes cfg scope token =
    (not (is_empty cfg.api_bearer_token) && text_eq token cfg.api_bearer_token)
    || is_allowed cfg scope token

passes→Grants :
    (cfg : Config) (scope : Scope) (token : Text)
    → passes cfg scope token ≡ true
    → Grants cfg token scope
passes→Grants cfg scope token h = elim (Bool-cases (is_allowed cfg scope token)) [
  | inl e ↦ is_allowed→Grants cfg scope token e
  | inr e ↦ bearer (ground (arith, text_eq_iff token cfg.api_bearer_token))
]

Grants→passes :
    (cfg : Config) (scope : Scope) (token : Text)
    → is_empty token ≡ false
    → Grants cfg token scope
    → passes cfg scope token ≡ true
unfolding is_allowed
Grants→passes cfg scope token some_token (bearer e) =
    ground (arith, text_eq_iff token cfg.api_bearer_token)
Grants→passes cfg admin token some_token (administrates l) =
    ground (arith, Listed→contains _ token l)
Grants→passes cfg read token some_token (administrates l) =
    ground (arith, Listed→contains _ token l)
Grants→passes cfg rw_scope token some_token (administrates l) =
    ground (arith, Listed→contains _ token l)
Grants→passes cfg read token some_token (reads l) = ground (arith, Listed→contains _ token l)
Grants→passes cfg rw_scope token some_token (reads_writes l) =
    ground (arith, Listed→contains _ token l)
Grants→passes cfg rw_scope token some_token (publishes l) =
    ground (arith, Listed→contains _ token l)

-- With authentication on and some token configured, a request is served exactly if its address is
-- not blocked, it carries a token that is not empty and not expired, and the token is the bearer
-- token or stands, up to surrounding space, in a list of the scope: the administrators' in every
-- scope, the readers' in `read` and in `rw`, the publishers' in `rw`.
pub secure-serves_iff :
    (cfg : Config) (scope : Scope) (clock : ℕ → ℕ) (ip header : Text) (g : AuthFailureGuard)
    → cfg.disable_api_token_auth ≡ false
    → has_no_tokens cfg ≡ false
    → ((secure cfg scope clock ip header g).0 ≡ serves) ↔ (
        ((is_blocked g ip (clock 0)).1 ≡ false)
        × (is_empty (bearer_token header) ≡ false)
        × (is_expired cfg (bearer_token header) (clock 1) ≡ false)
        × Grants cfg (bearer_token header) scope)
unfolding secure
secure-serves_iff cfg scope clock ip header g on some_token =
    let token = bearer_token header in
    (
      λ h. (ground arith, ground arith, ground arith, passes→Grants cfg scope token (ground arith)),
      λ (free, given, fresh, granted).
          let ok = Grants→passes cfg scope token given granted in ground arith,
    )
