-- ===== src/Middleware.antt =====
-- The middleware around the routes (internal/core/app.go). A handler gets the headers that are set so
-- far; its outcome has the headers at its end. The tracing and metrics of `instrument` are left out.
pub mod Order
pub mod Origins
use shiro_distributed_system.Common.{
  ℕ, ◌+◌, ◌-◌, ◌/◌, ◌%◌, Bool, true, false, not, ◌&&◌, ◌||◌, Option, none, some, List, [], ◌∷◌,
  ◌++◌, Text, codes, is_empty, text_eq, trim_space, ltb, if◌then◌else◌, text_key,
}
use shiro_distributed_system.Common.Assoc.{Map, insert}
use shiro_distributed_system.Common.Decimal.{decimal}
use shiro_distributed_system.Config.{Config}
use shiro_distributed_system.Config.Parse.{split}
use shiro_distributed_system.Limiter.{Rate}
use shiro_distributed_system.IpLimiter
use shiro_distributed_system.IpLimiter.{IpRateLimiter}
use shiro_distributed_system.Handler.{Lane, acquire_guard, release_guard}

pub record WebRequest : Type 0 where
  pub method : Text
  pub path : Text
  pub remote_addr : Text
  -- A header by its name, empty if it is not there.
  pub header : Text → Text

abbrev pub Headers : Type 0
Headers = Map Text Text

pub data Outcome : Type 0 where
  served : ℕ → Headers → Outcome
  -- A panic, with the status if one is written already.
  panicked : Option ℕ → Headers → Outcome

abbrev pub Serve : Type 0 → Type 0
Serve S = WebRequest → Headers → S → Outcome × S

-- The separator of a list in a header.
abbrev join : List Text → Text
join [] = []
join (s ∷ []) = s
join (s ∷ t ∷ ts) = s ++ codes ", " ++ join (t ∷ ts)

unfoldable pub is_allowed_origin : Text → List Text → Bool
is_allowed_origin origin [] = false
is_allowed_origin origin (allowed ∷ rest) =
    let o = trim_space allowed in
    (not (is_empty o) && (text_eq o (codes "*") || text_eq o origin))
    || is_allowed_origin origin rest

-- http.Error
unfoldable pub http_error : ℕ → Headers → Outcome
http_error status h = served status (
    insert (codes "X-Content-Type-Options") (codes "nosniff")
      (insert (codes "Content-Type") (codes "text/plain; charset=utf-8") h))

-- `parse_addr_port` is netip.ParseAddrPort with the address as text.
unfoldable pub client_ip : (Text → Option Text) → Text → Text
unfolding split
client_ip parse_addr_port remote_addr = elim (parse_addr_port remote_addr) [
  | some ip ↦ ip
  | none ↦ elim (split b':' remote_addr) [ [] ↦ remote_addr | part ∷ parts ↦ part ]
]

abbrev hex_digit : ℕ → ℕ
hex_digit n = if ltb n 10 then b'0' + n else b'a' + (n - 10)

-- hex.EncodeToString
abbrev hex : List ℕ → Text
hex [] = []
hex (byte ∷ bytes) = hex_digit (byte / 16) ∷ hex_digit (byte % 16) ∷ hex bytes

-- From the random bytes, if there are any, or else from the time.
unfoldable pub new_request_id : Option (List ℕ) → ℕ → Text
new_request_id (some bytes) now = hex bytes
new_request_id none now = decimal now

unfoldable pub recovered : Outcome → Outcome
unfolding http_error
recovered (served status h) = served status h
recovered (panicked (some status) h) = served status h
recovered (panicked none h) = http_error 500 h

unfoldable pub cors_headers : Config → Text → Headers → Headers
unfolding is_allowed_origin
cors_headers cfg origin h =
    if not (is_empty origin) && is_allowed_origin origin cfg.cors_allowed_origins
    then insert (codes "Access-Control-Allow-Headers") (join cfg.cors_allowed_headers) (
        insert (codes "Access-Control-Allow-Methods") (join cfg.cors_allowed_methods) (
          insert (codes "Access-Control-Allow-Credentials") (codes "true") (
            insert (codes "Vary") (codes "Origin")
              (insert (codes "Access-Control-Allow-Origin") origin h))))
    else h

abbrev set_if : Bool → Text → Text → Headers → Headers
set_if b name value h = if b then insert name value h else h

unfoldable pub security_headers : Config → Headers → Headers
security_headers cfg h =
    let fixed = insert (codes "Cache-Control") (codes "no-store") (
      insert (codes "Referrer-Policy") (codes "no-referrer") (
        insert (codes "X-Frame-Options") (codes "DENY")
          (insert (codes "X-Content-Type-Options") (codes "nosniff") h))) in
    if cfg.security_headers_enabled
    then set_if (not (is_empty (trim_space cfg.csp_header))) (codes "Content-Security-Policy")
        cfg.csp_header
        (set_if cfg.hsts_enabled (codes "Strict-Transport-Security")
          (codes "max-age=31536000; includeSubDomains") fixed)
    else h

module _ {S : Type 0} where
  unfoldable pub with_recovery : Serve S → Serve S
  unfolding recovered
  with_recovery next r h s = let x = next r h s in (recovered x.0, x.1)

  unfoldable pub with_cors : Config → Serve S → Serve S
  unfolding cors_headers
  with_cors cfg next r h s =
      let h' = cors_headers cfg (trim_space (r.header (codes "Origin"))) h in
      if cfg.cors_enabled
      then if text_eq r.method (codes "OPTIONS") then (served 204 h', s) else next r h' s
      else next r h s

  unfoldable pub with_security_headers : Config → Serve S → Serve S
  unfolding security_headers
  with_security_headers cfg next r h s = next r (security_headers cfg h) s

  -- The request's context keeps the id for the log only.
  unfoldable pub with_request_id : (S → Option (List ℕ)) → (S → ℕ) → Serve S → Serve S
  unfolding new_request_id
  with_request_id random now next r h s =
      let given = trim_space (r.header (codes "X-Request-Id")) in
      let rid = if is_empty given then new_request_id (random s) (now s) else given in
      next r (insert (codes "X-Request-Id") rid h) s

  -- `timeout_handler` is http.TimeoutHandler.
  unfoldable pub with_request_timeout : (Serve S → Serve S) → Serve S → Serve S
  with_request_timeout timeout_handler next r h s =
      if text_eq r.path (codes "/stream") then next r h s else timeout_handler next r h s

-- What the middleware changes, and all else.
pub record Front (rate : Rate) (S : Type 0) : Type 0 where
  pub limiter : IpRateLimiter rate
  pub guard : Lane
  pub inner : S

module _ {rate : Rate} {S : Type 0} where
  unfoldable pub with_concurrency_limit : Serve (Front rate S) → Serve (Front rate S)
  unfolding http_error
  with_concurrency_limit next r h s =
      let asked = acquire_guard s.guard in
      let x = next r h (record s { guard = asked.1 }) in
      if asked.0
      then (x.0, record x.1 { guard = release_guard x.1.guard })
      else (http_error 503 h, s)

  unfoldable pub with_rate_limit :
      (Text → Option Text) → (S → ℕ) → Serve (Front rate S) → Serve (Front rate S)
  unfolding http_error client_ip
  with_rate_limit parse_addr_port now next r h s =
      let asked =
        IpLimiter.allow rate s.limiter (client_ip parse_addr_port r.remote_addr) (now s.inner) in
      if asked.1
      then next r h (record s { limiter = asked.0 })
      else (http_error 429 h, record s { limiter = asked.0 })

-- What the middleware calls that is not under its control.
pub record Surroundings (rate : Rate) (S : Type 0) : Type 0 where
  pub parse_addr_port : Text → Option Text
  pub random : Front rate S → Option (List ℕ)
  pub now : S → ℕ
  pub timeout_handler : Serve (Front rate S) → Serve (Front rate S)

-- The handler of the server around the routes, as `Run` composes it.
unfoldable pub server_handler :
    {rate : Rate} {S : Type 0}
    → Surroundings rate S
    → Config
    → Serve (Front rate S)
    → Serve (Front rate S)
unfolding with_recovery with_cors with_security_headers with_request_id with_request_timeout
    with_concurrency_limit with_rate_limit
server_handler env cfg mux = with_recovery (
    with_cors cfg (
      with_security_headers cfg (
        with_request_id env.random (λ s. env.now s.inner)
          (with_request_timeout env.timeout_handler
            (with_concurrency_limit (with_rate_limit env.parse_addr_port env.now mux))))))
