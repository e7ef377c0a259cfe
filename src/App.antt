-- ===== src/App.antt =====
-- `New` and the routes of internal/core/app.go, and the settings that cmd/controlplane/main.go hands
-- to the modules.
use shiro_distributed_system.Common.{
  ℕ, Bool, false, not, ◌||◌, Option, none, some, List, [], ◌∷◌, Text, ℤ, pos, pos_part, ◌*ℤ◌,
  wrap64, codes, is_empty, text_eq, trim_space, map, select, Result, ok, err, if◌then◌else◌,
}
use shiro_distributed_system.Common.Assoc.{Map}
use shiro_distributed_system.GoMax.{max}
use shiro_distributed_system.Config.{Config}
use shiro_distributed_system.Config.Parse.{non_empty}
use shiro_distributed_system.Access.{Scope, admin, read, rw_scope}
use shiro_distributed_system.AuthGuard.{AuthFailureGuard, new_auth_failure_guard}
use shiro_distributed_system.Breaker.{CircuitBreaker}
use shiro_distributed_system.Limiter.{Rate}
use shiro_distributed_system.IpLimiter.{IpRateLimiter, new_ip_rate_limiter}
use shiro_distributed_system.SubjectLimiter.{SubjectRateLimiter, new_subject_rate_limiter}
use shiro_distributed_system.Interfaces.{Runtime, EventBus, EventStore}
use shiro_distributed_system.Handler.{Lane}
use shiro_distributed_system.Lifecycle.{AppModule, module_breaker, module_breakers, run_app}
use shiro_distributed_system.Contracts.{Error}
use shiro_distributed_system.Config.Validate.{validate}
use shiro_distributed_system.Cass.Connect.{CassandraSettings}
use shiro_distributed_system.Tls.{TlsOptions}
use shiro_distributed_system.Nats.{NatsSettings}

-- What a module can be besides: its views as a bus, a coordinator and a store.
pub record Plugin (World : Type 0) : Type 0 where
  pub life : AppModule World
  pub bus : Option (EventBus World)
  pub is_coordinator : Bool
  pub store : Option (EventStore World)

abbrev or_else : {A : Type 0} → Option A → Option A → Option A
or_else (some a) b = some a
or_else none b = b

module _ {World : Type 0} where
  -- The last module that is a bus, and so on.
  unfoldable pub last_bus : List (Plugin World) → Option (EventBus World)
  last_bus [] = none
  last_bus (m ∷ ms) = or_else (last_bus ms) m.bus

  unfoldable pub last_store : List (Plugin World) → Option (EventStore World)
  last_store [] = none
  last_store (m ∷ ms) = or_else (last_store ms) m.store

  unfoldable pub last_coordinator : List (Plugin World) → Option (AppModule World)
  last_coordinator [] = none
  last_coordinator (m ∷ ms) =
      or_else (last_coordinator ms) (if m.is_coordinator then some m.life else none)

-- `App` without its metrics and its tracer.
pub record App (rt : Runtime) (rate : Rate) : Type 0 where
  pub bus : Option (EventBus rt.World)
  pub coord : Option (AppModule rt.World)
  pub store : Option (EventStore rt.World)
  pub limiter : IpRateLimiter rate
  pub guard : Lane
  pub pub_guard : Lane
  pub query_guard : Lane
  pub started : Bool
  pub bus_breaker : CircuitBreaker
  pub store_breaker : CircuitBreaker
  pub module_breakers : Map Text CircuitBreaker
  pub subject_limiter : SubjectRateLimiter rate
  pub auth_guard : AuthFailureGuard
  pub event_types : List Text
  pub outbox_paused : Bool

abbrev lane_of : ℤ → Lane
lane_of n = record { used = 0; capacity = pos_part (max (pos 1) n) }

abbrev seconds : ℤ → ℤ → ℕ
seconds floor s = pos_part (wrap64 (max floor s *ℤ pos 1_000_000_000))

-- `now` is read by the limiter of addresses.
unfoldable pub new_app :
    (rt : Runtime) (rate : Rate) → Config → List (Plugin rt.World) → ℕ → App rt rate
unfolding last_bus last_store last_coordinator
new_app rt rate cfg ms now = record {
  bus = last_bus ms;
  coord = last_coordinator ms;
  store = last_store ms;
  limiter =
      new_ip_rate_limiter rate (pos_part (max (pos 1) cfg.rate_limit_rps))
        (pos_part (max (pos 1) cfg.rate_limit_burst)) (max (pos 100) cfg.rate_limit_max_ips)
        (seconds (pos 60) cfg.rate_limit_ip_ttl_seconds) now;
  guard = lane_of cfg.max_concurrent_requests;
  pub_guard = lane_of cfg.max_concurrent_publishes;
  query_guard = lane_of cfg.max_concurrent_queries;
  started = false;
  bus_breaker = module_breaker cfg (codes "nats");
  store_breaker = module_breaker cfg (codes "cassandra");
  module_breakers = module_breakers rt cfg (map (λ m. m.life) ms);
  subject_limiter =
      new_subject_rate_limiter rate (pos_part (max (pos 1) cfg.subject_rate_limit_rps))
        (max (pos 1) cfg.subject_rate_limit_burst) cfg.subject_rate_limit_overrides;
  auth_guard =
      new_auth_failure_guard (max (pos 1) cfg.auth_failure_max_attempts)
        (seconds (pos 1) cfg.auth_failure_block_seconds);
  event_types = select non_empty (map trim_space cfg.event_type_registry);
  outbox_paused = false;
}

-- The routes of the server.
pub data Route : Type 0 where
  metrics health live startup leader events dead_letters replay relay_admin stream : Route

-- http.ServeMux, for the patterns that `Run` registers: each is one path.
unfoldable pub route_of : Text → Option Route
route_of path =
    if text_eq path (codes "/metrics")
    then some metrics
    else if text_eq path (codes "/healthz") || text_eq path (codes "/readyz")
    then some health
    else if text_eq path (codes "/livez")
    then some live
    else if text_eq path (codes "/startupz")
    then some startup
    else if text_eq path (codes "/leaderz")
    then some leader
    else if text_eq path (codes "/events")
    then some events
    else if text_eq path (codes "/deadletters")
    then some dead_letters
    else if text_eq path (codes "/deadletters/replay")
    then some replay
    else if text_eq path (codes "/admin/outbox-relay")
    then some relay_admin
    else if text_eq path (codes "/stream")
    then some stream
    else none

-- The scope that `secure` is given, if the route is secured.
unfoldable pub scope_of : Route → Option Scope
scope_of leader = some admin
scope_of events = some rw_scope
scope_of dead_letters = some admin
scope_of replay = some admin
scope_of relay_admin = some admin
scope_of stream = some read
scope_of _ = none

-- `handleEvents`: what a method is dispatched to, or 405.
pub data EventsCall : Type 0 where
  publishes lists not_allowed : EventsCall

unfoldable pub handle_events : Text → EventsCall
handle_events method =
    if text_eq method (codes "POST")
    then publishes
    else if text_eq method (codes "GET")
    then lists
    else not_allowed

-- The options that all three modules share.
unfoldable pub tls_options : Config → TlsOptions
tls_options cfg = record {
  ca_file = cfg.tls_ca_file;
  cert_file = cfg.tls_cert_file;
  key_file = cfg.tls_key_file;
  server_name = cfg.tls_server_name;
  insecure_skip_verify = cfg.tls_insecure_skip_verify;
}

unfoldable pub nats_settings : Config → NatsSettings
unfolding tls_options
nats_settings cfg = record {
  url = cfg.nats_url;
  stream_name = cfg.nats_stream;
  user = cfg.nats_user;
  password = cfg.nats_password;
  token = cfg.nats_token;
  tls = tls_options cfg;
}

unfoldable pub cassandra_settings : Config → CassandraSettings
unfolding tls_options
cassandra_settings cfg = record {
  hosts = cfg.cassandra_hosts;
  keyspace = cfg.cassandra_keyspace;
  user = cfg.cassandra_user;
  password = cfg.cassandra_password;
  tls = tls_options cfg;
}

-- `telemetry.Setup`: without an endpoint nothing is exported; `exporter` and `resource` are the calls
-- of OpenTelemetry, and the result says whether a provider is installed.
unfoldable pub setup_telemetry :
    Result Error (Unit {0}) → Result Error (Unit {0}) → Text → Result Error Bool
setup_telemetry exporter (ok _) endpoint = elim exporter [
  | ok _ ↦ ok (not (is_empty endpoint))
  | err e ↦ if is_empty endpoint then ok false else err e
]
setup_telemetry exporter (err e) endpoint = elim exporter [
  | ok _ ↦ if is_empty endpoint then ok false else err e
  | err e' ↦ if is_empty endpoint then ok false else err e'
]

-- How `main` ends: with an exit status that is not 0 and what is logged, or normally.
pub data Exit : Type 0 where
  fatal : Text → Exit
  normal : Exit

module _ (rt : Runtime) where
  abbrev exit_of : Result Error (Unit {0}) → Exit
  exit_of (ok _) = normal
  exit_of (err e) = fatal (rt.error_text e)

  -- `main`: the environment's configuration, the telemetry, and the application, run to its end.
  unfoldable pub run_main :
      Config
      → Result Error Bool
      → (rt.World → Option Error × rt.World)
      → List (AppModule rt.World)
      → rt.World
      → Exit × rt.World
  run_main cfg telemetry serve ms w =
      let ran = run_app rt cfg serve ms w in
      elim (validate cfg) [
        | some problem ↦ (fatal problem, w)
        | none ↦ elim telemetry [
          | err e ↦ (fatal (rt.error_text e), w)
          | ok _ ↦ (exit_of ran.0, ran.1)
        ]
      ]
