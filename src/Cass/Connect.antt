-- ===== src/Cass/Connect.antt =====
-- Connecting and closing in internal/modules/cassstore/module.go. The driver and net.SplitHostPort are
-- parameters; the state is whether the module keeps a session, and the driver's world.
pub mod Hosts
use shiro_distributed_system.Common.{
  Bool, true, false, not, Option, none, some, List, [], ◌∷◌, Text, ℤ, pos, codes, is_empty,
  trim_space, Result, ok, err, if◌then◌else◌,
}
use shiro_distributed_system.Config.Parse.{atoi}
use shiro_distributed_system.Contracts.{Error, session_not_available}
use shiro_distributed_system.Monad.{M}
use shiro_distributed_system.Tls.{TlsConfig, TlsOptions, Files, build_tls_config}

pub record CassandraSettings : Type 0 where
  pub hosts : List Text
  pub keyspace : Text
  pub user : Text
  pub password : Text
  pub tls : TlsOptions

abbrev port_or : Option ℤ → ℤ → ℤ
port_or none port = port
port_or (some p) port = p

-- The loop of `normalizeHosts`: the hosts and the port so far are given and returned.
unfoldable pub normalize_from : (Text → Option (Text × Text)) → List Text → ℤ → List Text × ℤ
normalize_from split_host_port [] port = ([], port)
normalize_from split_host_port (h ∷ rest) port =
    let host = trim_space h in
    let skipped = normalize_from split_host_port rest port in
    if is_empty host then skipped else elim (split_host_port host) [
      | none ↦ (host ∷ skipped.0, skipped.1)
      | some (name, p) ↦
          let others = normalize_from split_host_port rest (port_or (atoi p) port) in
          (name ∷ others.0, others.1)
    ]

abbrev or_localhost : List Text → List Text
or_localhost [] = codes "localhost" ∷ []
or_localhost (h ∷ hs) = h ∷ hs

unfoldable pub normalize_hosts : (Text → Option (Text × Text)) → List Text → List Text × ℤ
unfolding normalize_from
normalize_hosts split_host_port hosts =
    let r = normalize_from split_host_port hosts (pos 9042) in (or_localhost r.0, r.1)

-- What the cluster's configuration takes from the settings.
pub record ClusterConfig : Type 0 where
  pub hosts : List Text
  pub port : ℤ
  -- The user and the password.
  pub authenticator : Option (Text × Text)
  -- The configuration and whether the host's name is verified.
  pub ssl : Option (TlsConfig × Bool)
  pub keyspace : Option Text

-- The driver: a session of its own for a cluster, the statement that creates a keyspace, and the ten
-- statements that create the tables.
pub record Sessions (World : Type 0) : Type 0 where
  pub split_host_port : Text → Option (Text × Text)
  pub create_session : ClusterConfig → M World (Unit {0})
  pub create_keyspace : Text → M World (Unit {0})
  pub create_table : Text → M World (Unit {0})
  pub ping : World → Result Error (Unit {0})
  -- The session for this keyspace, or the one for none.
  pub close : Option Text → World → World

-- The tables, in the order of their creation.
abbrev pub table_names : List Text
table_names =
    codes "events_by_stream"
    ∷ codes "events_by_id"
    ∷ codes "idempotency_keys"
    ∷ codes "idempotency_by_created"
    ∷ codes "outbox_events"
    ∷ codes "outbox_retry_state"
    ∷ codes "outbox_by_state"
    ∷ codes "inbox_consumed"
    ∷ codes "dead_letters_by_time"
    ∷ codes "dead_letters_by_id"
    ∷ []

module _ {World : Type 0} (driver : Sessions World) (m : CassandraSettings) where
  unfoldable pub cluster_of : Option TlsConfig → ClusterConfig
  unfolding normalize_hosts
  cluster_of tls =
      let hosts = normalize_hosts driver.split_host_port m.hosts in
      record {
        hosts = hosts.0;
        port = hosts.1;
        authenticator = if is_empty m.user then none else some (m.user, m.password);
        ssl = elim tls [ none ↦ none | some c ↦ some (c, not m.tls.insecure_skip_verify) ];
        keyspace = none;
      }

  unfoldable pub create_tables : List Text → M World (Unit {0})
  create_tables [] w = (ok tt, w)
  create_tables (t ∷ ts) w =
      let r = driver.create_table t w in
      let rest = create_tables ts r.1 in
      elim r.0 [ ok _ ↦ rest | err e ↦ (err e, driver.close (some m.keyspace) r.1) ]

  -- The session proper, after the keyspace is there.
  unfoldable pub open_session : ClusterConfig → M World (Unit {0})
  unfolding create_tables
  open_session cluster w =
      let opened = driver.create_session (record cluster { keyspace = some m.keyspace }) w in
      let created = create_tables table_names opened.1 in
      elim opened.0 [ err e ↦ opened | ok _ ↦ created ]

  -- The first session is closed at the end.
  unfoldable pub bootstrap : ClusterConfig → M World (Unit {0})
  unfolding open_session
  bootstrap cluster w =
      let booted = driver.create_session cluster w in
      let made = driver.create_keyspace m.keyspace booted.1 in
      let opened = open_session cluster made.1 in
      elim booted.0 [
        | err e ↦ booted
        | ok _ ↦ elim made.0 [
          | err e ↦ (err e, driver.close none made.1)
          | ok _ ↦ (opened.0, driver.close none opened.1)
        ]
      ]

  abbrev kept : Bool → Result Error (Unit {0}) → Bool
  kept on (ok _) = true
  kept on (err e) = on

  -- A failed start leaves the module's session as it was.
  unfoldable pub start_store : Files → Bool × World → Result Error (Unit {0}) × (Bool × World)
  unfolding bootstrap cluster_of
  start_store files (on, w) = elim (build_tls_config files m.tls) [
    | err e ↦ (err e, (on, w))
    | ok tls ↦ let r = bootstrap (cluster_of tls) w in (r.0, (kept on r.0, r.1))
  ]

  unfoldable pub ready_store : Bool × World → Result Error (Unit {0})
  ready_store (on, w) = if on then driver.ping w else err session_not_available

  unfoldable pub stop_store : Bool × World → Bool × World
  stop_store (on, w) = (false, if on then driver.close (some m.keyspace) w else w)
