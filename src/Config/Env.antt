-- ===== src/Config/Env.antt =====
-- `FromEnv` of internal/config/config.go.
use shiro_distributed_system.Common.{◌*◌, ◌^◌, true, false, Option, Text, pos, codes}
use shiro_distributed_system.Config.{Config}
use shiro_distributed_system.Config.Parse.{
  env_or, split_or, host_or, bool_or, int_or, parse_int_map, parse_schema_version_rules,
  parse_required_field_rules,
}

-- `env` is os.Getenv and `host` what os.Hostname gives.
unfoldable pub from_env : (Text → Text) → Option Text → Config
from_env env host = record {
  http_addr = env_or (env (codes "HTTP_ADDR")) (codes ":8080");
  http_read_timeout_ms = int_or (env (codes "HTTP_READ_TIMEOUT_MS")) (pos 10000);
  http_read_header_timeout_ms = int_or (env (codes "HTTP_READ_HEADER_TIMEOUT_MS")) (pos 3000);
  http_write_timeout_ms = int_or (env (codes "HTTP_WRITE_TIMEOUT_MS")) (pos 15000);
  http_idle_timeout_ms = int_or (env (codes "HTTP_IDLE_TIMEOUT_MS")) (pos 60000);
  http_shutdown_timeout_ms = int_or (env (codes "HTTP_SHUTDOWN_TIMEOUT_MS")) (pos 10000);
  http_request_timeout_ms = int_or (env (codes "HTTP_REQUEST_TIMEOUT_MS")) (pos 8000);
  max_concurrent_requests = int_or (env (codes "MAX_CONCURRENT_REQUESTS")) (pos 500);
  max_concurrent_publishes = int_or (env (codes "MAX_CONCURRENT_PUBLISHES")) (pos 200);
  max_concurrent_queries = int_or (env (codes "MAX_CONCURRENT_QUERIES")) (pos 300);
  circuit_failure_threshold = int_or (env (codes "CIRCUIT_FAILURE_THRESHOLD")) (pos 5);
  circuit_open_ms = int_or (env (codes "CIRCUIT_OPEN_MS")) (pos 15000);
  circuit_half_open_successes = int_or (env (codes "CIRCUIT_HALF_OPEN_SUCCESSES")) (pos 2);
  publish_timeout_ms = int_or (env (codes "PUBLISH_TIMEOUT_MS")) (pos 5000);
  outbox_lease_ms = int_or (env (codes "OUTBOX_LEASE_MS")) (pos 15000);
  outbox_backoff_base_ms = int_or (env (codes "OUTBOX_BACKOFF_BASE_MS")) (pos 500);
  outbox_backoff_max_ms = int_or (env (codes "OUTBOX_BACKOFF_MAX_MS")) (pos 30000);
  outbox_backoff_jitter_pct = int_or (env (codes "OUTBOX_BACKOFF_JITTER_PCT")) (pos 25);
  outbox_quarantine_after = int_or (env (codes "OUTBOX_QUARANTINE_AFTER")) (pos 12);
  cleanup_interval_ms = int_or (env (codes "CLEANUP_INTERVAL_MS")) (pos 30000);
  cleanup_batch_size = int_or (env (codes "CLEANUP_BATCH_SIZE")) (pos 200);
  idempotency_ttl_hours = int_or (env (codes "IDEMPOTENCY_TTL_HOURS")) (pos (24 * 14));
  dead_letter_ttl_hours = int_or (env (codes "DEAD_LETTER_TTL_HOURS")) (pos (24 * 30));
  subject_rate_limit_rps = int_or (env (codes "SUBJECT_RATE_LIMIT_RPS")) (pos 100);
  subject_rate_limit_burst = int_or (env (codes "SUBJECT_RATE_LIMIT_BURST")) (pos 200);
  subject_rate_limit_overrides = parse_int_map (env (codes "SUBJECT_RATE_LIMIT_RPS_OVERRIDES"));
  schema_version_rules = parse_schema_version_rules (env (codes "EVENT_SCHEMA_VERSION_RULES"));
  schema_required_fields = parse_required_field_rules (env (codes "EVENT_SCHEMA_REQUIRED_FIELDS"));
  event_type_registry = split_or (env (codes "EVENT_TYPE_REGISTRY")) (codes "");
  reject_unknown_event_types = bool_or (env (codes "REJECT_UNKNOWN_EVENT_TYPES")) false;
  module_start_retry_max = int_or (env (codes "MODULE_START_RETRY_MAX")) (pos 4);
  module_start_retry_backoff_ms = int_or (env (codes "MODULE_START_RETRY_BACKOFF_MS")) (pos 1000);
  node_id = env_or (env (codes "NODE_ID")) (host_or host (codes "node-1"));
  nats_url = env_or (env (codes "NATS_URL")) (codes "nats://localhost:4222");
  nats_stream = env_or (env (codes "NATS_STREAM")) (codes "SHIRO_EVENTS");
  nats_user = env_or (env (codes "NATS_USER")) (codes "");
  nats_password = env_or (env (codes "NATS_PASSWORD")) (codes "");
  nats_token = env_or (env (codes "NATS_TOKEN")) (codes "");
  etcd_endpoints = split_or (env (codes "ETCD_ENDPOINTS")) (codes "localhost:2379");
  etcd_user = env_or (env (codes "ETCD_USER")) (codes "");
  etcd_password = env_or (env (codes "ETCD_PASSWORD")) (codes "");
  leader_election_key =
      env_or (env (codes "LEADER_ELECTION_KEY")) (codes "/shirods/controlplane/leader");
  cassandra_hosts = split_or (env (codes "CASSANDRA_HOSTS")) (codes "localhost:9042");
  cassandra_keyspace = env_or (env (codes "CASSANDRA_KEYSPACE")) (codes "shirods");
  cassandra_user = env_or (env (codes "CASSANDRA_USER")) (codes "");
  cassandra_password = env_or (env (codes "CASSANDRA_PASSWORD")) (codes "");
  tls_ca_file = env_or (env (codes "TLS_CA_FILE")) (codes "");
  tls_cert_file = env_or (env (codes "TLS_CERT_FILE")) (codes "");
  tls_key_file = env_or (env (codes "TLS_KEY_FILE")) (codes "");
  tls_server_name = env_or (env (codes "TLS_SERVER_NAME")) (codes "");
  tls_insecure_skip_verify = bool_or (env (codes "TLS_INSECURE_SKIP_VERIFY")) false;
  cors_enabled = bool_or (env (codes "CORS_ENABLED")) false;
  cors_allowed_origins = split_or (env (codes "CORS_ALLOWED_ORIGINS")) (codes "");
  cors_allowed_methods = split_or (env (codes "CORS_ALLOWED_METHODS")) (codes "GET,POST,OPTIONS");
  cors_allowed_headers =
      split_or (env (codes "CORS_ALLOWED_HEADERS"))
        (codes "Authorization,Content-Type,Idempotency-Key,X-Request-Id");
  hsts_enabled = bool_or (env (codes "HSTS_ENABLED")) false;
  csp_header =
      env_or (env (codes "CSP_HEADER"))
        (codes "default-src 'none'; frame-ancestors 'none'; base-uri 'none'");
  api_bearer_token = env_or (env (codes "API_BEARER_TOKEN")) (codes "");
  api_publish_tokens = split_or (env (codes "API_ACL_PUBLISH_TOKENS")) (codes "");
  api_read_tokens = split_or (env (codes "API_ACL_READ_TOKENS")) (codes "");
  api_admin_tokens = split_or (env (codes "API_ACL_ADMIN_TOKENS")) (codes "");
  api_token_expirations = parse_int_map (env (codes "API_TOKEN_EXPIRATIONS"));
  disable_api_token_auth = bool_or (env (codes "DISABLE_API_TOKEN_AUTH")) false;
  auth_failure_max_attempts = int_or (env (codes "AUTH_FAILURE_MAX_ATTEMPTS")) (pos 10);
  auth_failure_block_seconds = int_or (env (codes "AUTH_FAILURE_BLOCK_SECONDS")) (pos 300);
  publish_retry_max = int_or (env (codes "PUBLISH_RETRY_MAX")) (pos 4);
  publish_retry_backoff_ms = int_or (env (codes "PUBLISH_RETRY_BACKOFF_MS")) (pos 150);
  publish_retry_max_backoff_ms = int_or (env (codes "PUBLISH_RETRY_MAX_BACKOFF_MS")) (pos 3000);
  outbox_relay_interval_ms = int_or (env (codes "OUTBOX_RELAY_INTERVAL_MS")) (pos 1500);
  outbox_relay_batch_size = int_or (env (codes "OUTBOX_RELAY_BATCH_SIZE")) (pos 100);
  rate_limit_rps = int_or (env (codes "RATE_LIMIT_RPS")) (pos 60);
  rate_limit_burst = int_or (env (codes "RATE_LIMIT_BURST")) (pos 120);
  rate_limit_max_ips = int_or (env (codes "RATE_LIMIT_MAX_IPS")) (pos 10000);
  rate_limit_ip_ttl_seconds = int_or (env (codes "RATE_LIMIT_IP_TTL_SECONDS")) (pos 900);
  max_request_body_bytes = int_or (env (codes "MAX_REQUEST_BODY_BYTES")) (pos (2 ^ 20));
  security_headers_enabled = bool_or (env (codes "SECURITY_HEADERS_ENABLED")) true;
  audit_log_enabled = bool_or (env (codes "AUDIT_LOG_ENABLED")) true;
  require_leader_for_writes = bool_or (env (codes "REQUIRE_LEADER_FOR_WRITES")) false;
  otel_service_name = env_or (env (codes "OTEL_SERVICE_NAME")) (codes "shiro-distributed-system");
  otel_exporter_otlp_endpoint = env_or (env (codes "OTEL_EXPORTER_OTLP_ENDPOINT")) (codes "");
}
