-- ===== src/Config.antt =====
-- The configuration of internal/config/config.go.
pub mod Parse
pub mod Env
pub mod Validate
pub mod Rules
use shiro_distributed_system.Common.{Bool, List, Text, ℤ}
use shiro_distributed_system.Common.Assoc.{Map}

-- The schema versions that an event type admits.
pub record VersionRange : Type 0 where
  pub min : ℤ
  pub max : ℤ

pub record Config : Type 0 where
  pub http_addr : Text
  pub http_read_timeout_ms : ℤ
  pub http_read_header_timeout_ms : ℤ
  pub http_write_timeout_ms : ℤ
  pub http_idle_timeout_ms : ℤ
  pub http_shutdown_timeout_ms : ℤ
  pub http_request_timeout_ms : ℤ
  pub max_concurrent_requests : ℤ
  pub max_concurrent_publishes : ℤ
  pub max_concurrent_queries : ℤ
  pub circuit_failure_threshold : ℤ
  pub circuit_open_ms : ℤ
  pub circuit_half_open_successes : ℤ
  pub publish_timeout_ms : ℤ
  pub outbox_lease_ms : ℤ
  pub outbox_backoff_base_ms : ℤ
  pub outbox_backoff_max_ms : ℤ
  pub outbox_backoff_jitter_pct : ℤ
  pub outbox_quarantine_after : ℤ
  pub cleanup_interval_ms : ℤ
  pub cleanup_batch_size : ℤ
  pub idempotency_ttl_hours : ℤ
  pub dead_letter_ttl_hours : ℤ
  pub subject_rate_limit_rps : ℤ
  pub subject_rate_limit_burst : ℤ
  pub subject_rate_limit_overrides : Map Text ℤ
  pub schema_version_rules : Map Text VersionRange
  pub schema_required_fields : Map Text (List Text)
  pub event_type_registry : List Text
  pub reject_unknown_event_types : Bool
  pub module_start_retry_max : ℤ
  pub module_start_retry_backoff_ms : ℤ
  pub node_id : Text
  pub nats_url : Text
  pub nats_stream : Text
  pub nats_user : Text
  pub nats_password : Text
  pub nats_token : Text
  pub etcd_endpoints : List Text
  pub etcd_user : Text
  pub etcd_password : Text
  pub leader_election_key : Text
  pub cassandra_hosts : List Text
  pub cassandra_keyspace : Text
  pub cassandra_user : Text
  pub cassandra_password : Text
  pub tls_ca_file : Text
  pub tls_cert_file : Text
  pub tls_key_file : Text
  pub tls_server_name : Text
  pub tls_insecure_skip_verify : Bool
  pub cors_enabled : Bool
  pub cors_allowed_origins : List Text
  pub cors_allowed_methods : List Text
  pub cors_allowed_headers : List Text
  pub hsts_enabled : Bool
  pub csp_header : Text
  pub api_bearer_token : Text
  pub api_publish_tokens : List Text
  pub api_read_tokens : List Text
  pub api_admin_tokens : List Text
  pub api_token_expirations : Map Text ℤ
  pub disable_api_token_auth : Bool
  pub auth_failure_max_attempts : ℤ
  pub auth_failure_block_seconds : ℤ
  pub publish_retry_max : ℤ
  pub publish_retry_backoff_ms : ℤ
  pub publish_retry_max_backoff_ms : ℤ
  pub outbox_relay_interval_ms : ℤ
  pub outbox_relay_batch_size : ℤ
  pub rate_limit_rps : ℤ
  pub rate_limit_burst : ℤ
  pub rate_limit_max_ips : ℤ
  pub rate_limit_ip_ttl_seconds : ℤ
  pub max_request_body_bytes : ℤ
  pub security_headers_enabled : Bool
  pub audit_log_enabled : Bool
  pub require_leader_for_writes : Bool
  pub otel_service_name : Text
  pub otel_exporter_otlp_endpoint : Text
