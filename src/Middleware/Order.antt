-- ===== src/Middleware/Order.antt =====
-- What the order of the middleware gives every request (internal/core/app.go).
use shiro_distributed_system.Common.{
  ◌≡◌, ◌⊎◌, inl, inr, refl, ap, ◌∙◌, Bool, true, false, none, some, codes, arith, text_eq,
  Bool-cases, trim_space,
}
use shiro_distributed_system.Config.{Config}
use shiro_distributed_system.Limiter.{Rate}
use shiro_distributed_system.IpLimiter
use shiro_distributed_system.Handler.{acquire_guard, release_guard}
use shiro_distributed_system.Middleware.{
  WebRequest, Headers, Outcome, served, panicked, Serve, http_error, client_ip, cors_headers,
  recovered, with_recovery, with_cors, with_security_headers, with_request_id, with_request_timeout,
  Front, with_concurrency_limit, with_rate_limit, Surroundings, server_handler,
}

abbrev pub is_served : Outcome → Bool
is_served (served status h) = true
is_served (panicked status h) = false

recovered-is_served : (x : Outcome) → is_served (recovered x) ≡ true
unfolding recovered http_error
recovered-is_served (served status h) = refl
recovered-is_served (panicked none h) = refl
recovered-is_served (panicked (some status) h) = refl

-- http.TimeoutHandler answers what its handler answers, or 503 with the headers as they were; in the
-- end the handler has run.
abbrev pub IsTimeout : {S : Type 0} → (Serve S → Serve S) → Type 0
IsTimeout {S = S} timeout_handler =
    (next : Serve S) (r : WebRequest) (h : Headers) (s : S)
    → ((timeout_handler next r h s).1 ≡ (next r h s).1)
      × (((timeout_handler next r h s).0 ≡ (next r h s).0)
          ⊎ ((timeout_handler next r h s).0 ≡ served 503 h))

module _ {rate : Rate} {S : Type 0} (env : Surroundings rate S) (cfg : Config)
    (mux : Serve (Front rate S)) where
  -- A preflight is answered at once: with CORS, an OPTIONS request of any origin, path and address gets
  -- 204 and touches neither the rate limiter nor the guard nor anything behind them.
  server_handler-preflight :
      (r : WebRequest) (h : Headers) (s : Front rate S)
      → cfg.cors_enabled ≡ true
      → text_eq r.method (codes "OPTIONS") ≡ true
      → server_handler env cfg mux r h s
        ≡ (served 204 (cors_headers cfg (trim_space (r.header (codes "Origin"))) h), s)
  unfolding server_handler with_recovery with_cors recovered
  server_handler-preflight r h s on preflight =
      rw (on, preflight, server_handler, with_recovery, with_cors) refl

  module _
      (keeps : (r : WebRequest) (h : Headers) (s : Front rate S) → (mux r h s).1.guard ≡ s.guard)
      (timeout : IsTimeout env.timeout_handler) where
    limited : Serve (Front rate S)
    limited = with_concurrency_limit (with_rate_limit env.parse_addr_port env.now mux)

    limited-guard :
        (r : WebRequest) (h : Headers) (s : Front rate S) → (limited r h s).1.guard ≡ s.guard
    unfolding limited with_concurrency_limit with_rate_limit acquire_guard release_guard
    limited-guard r h s =
        let asked =
          IpLimiter.allow rate s.limiter (client_ip env.parse_addr_port r.remote_addr)
            (env.now s.inner) in
        let entered = record s { limiter = asked.0; guard = (acquire_guard s.guard).1 } in
        ground (arith, keeps r h entered)

    timed-guard :
        (r : WebRequest) (h : Headers) (s : Front rate S)
        → (with_request_timeout env.timeout_handler limited r h s).1.guard ≡ s.guard
    unfolding with_request_timeout
    timed-guard r h s = elim (Bool-cases (text_eq r.path (codes "/stream"))) [
      | inl stream ↦ rw stream (limited-guard r h s)
      | inr other ↦ rw other (ap (λ x. x.guard) (timeout limited r h s).0 ∙ limited-guard r h s)
    ]

    -- Whatever the routes do, panic included, a request is answered, and once its handler has run its
    -- place among the concurrent requests is free again; if the routes leave the guard alone and
    -- http.TimeoutHandler does what it documents.
    pub server_handler-restores :
        (r : WebRequest) (h : Headers) (s : Front rate S)
        → let x = server_handler env cfg mux r h s in (is_served x.0 ≡ true) × (x.1.guard ≡ s.guard)
    unfolding server_handler with_recovery with_cors with_security_headers with_request_id limited
    server_handler-restores r h s = (
      recovered-is_served _,
      elim (Bool-cases cfg.cors_enabled) [
        | inr off ↦ rw off (timed-guard r _ s)
        | inl on ↦ elim (Bool-cases (text_eq r.method (codes "OPTIONS"))) [
          | inl preflight ↦ rw (on, preflight) refl
          | inr other ↦ rw (on, other) (timed-guard r _ s)
        ]
      ],
    )
