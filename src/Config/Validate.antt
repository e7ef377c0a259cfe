-- ===== src/Config/Validate.antt =====
-- `Validate` of internal/config/config.go.
use shiro_distributed_system.Common.{
  Bool, true, false, ◌&&◌, Option, none, some, List, [], ◌∷◌, ◌++◌, Text, pos, leb_ℤ, ltb_ℤ, codes,
  if◌then◌else◌,
}
use shiro_distributed_system.Config.{Config}

abbrev is_nil : List Text → Bool
is_nil [] = true
is_nil (_ ∷ _) = false

-- The conditions that are errors, with their messages, in the order of the code.
unfoldable pub checks : Config → List (Bool × Text)
checks c =
    (leb_ℤ c.http_read_timeout_ms (pos 0), codes "HTTP_READ_TIMEOUT_MS must be > 0")
    ∷ (leb_ℤ c.http_read_header_timeout_ms (pos 0), codes "HTTP_READ_HEADER_TIMEOUT_MS must be > 0")
    ∷ (leb_ℤ c.http_write_timeout_ms (pos 0), codes "HTTP_WRITE_TIMEOUT_MS must be > 0")
    ∷ (leb_ℤ c.http_idle_timeout_ms (pos 0), codes "HTTP_IDLE_TIMEOUT_MS must be > 0")
    ∷ (leb_ℤ c.http_request_timeout_ms (pos 0), codes "HTTP_REQUEST_TIMEOUT_MS must be > 0")
    ∷ (leb_ℤ c.http_shutdown_timeout_ms (pos 0), codes "HTTP_SHUTDOWN_TIMEOUT_MS must be > 0")
    ∷ (leb_ℤ c.max_concurrent_requests (pos 0), codes "MAX_CONCURRENT_REQUESTS must be > 0")
    ∷ (leb_ℤ c.max_concurrent_publishes (pos 0), codes "MAX_CONCURRENT_PUBLISHES must be > 0")
    ∷ (leb_ℤ c.max_concurrent_queries (pos 0), codes "MAX_CONCURRENT_QUERIES must be > 0")
    ∷ (leb_ℤ c.publish_retry_max (pos 0), codes "PUBLISH_RETRY_MAX must be > 0")
    ∷ (leb_ℤ c.outbox_backoff_base_ms (pos 0), codes "OUTBOX_BACKOFF_BASE_MS must be > 0")
    ∷ (leb_ℤ c.outbox_backoff_max_ms (pos 0), codes "OUTBOX_BACKOFF_MAX_MS must be > 0")
    ∷ (
      ltb_ℤ c.outbox_backoff_max_ms c.outbox_backoff_base_ms,
      codes "OUTBOX_BACKOFF_BASE_MS must be <= OUTBOX_BACKOFF_MAX_MS",
    )
    ∷ (leb_ℤ c.outbox_quarantine_after (pos 0), codes "OUTBOX_QUARANTINE_AFTER must be > 0")
    ∷ (leb_ℤ c.max_request_body_bytes (pos 0), codes "MAX_REQUEST_BODY_BYTES must be > 0")
    ∷ (leb_ℤ c.rate_limit_rps (pos 0), codes "RATE_LIMIT_RPS must be > 0")
    ∷ (leb_ℤ c.rate_limit_burst (pos 0), codes "RATE_LIMIT_BURST must be > 0")
    ∷ (leb_ℤ c.rate_limit_max_ips (pos 0), codes "RATE_LIMIT_MAX_IPS must be > 0")
    ∷ (leb_ℤ c.rate_limit_ip_ttl_seconds (pos 0), codes "RATE_LIMIT_IP_TTL_SECONDS must be > 0")
    ∷ (
      c.cors_enabled && is_nil c.cors_allowed_methods,
      codes "CORS_ALLOWED_METHODS must be non-empty when CORS_ENABLED=true",
    )
    ∷ (
      c.cors_enabled && is_nil c.cors_allowed_headers,
      codes "CORS_ALLOWED_HEADERS must be non-empty when CORS_ENABLED=true",
    )
    ∷ (
      c.reject_unknown_event_types && is_nil c.event_type_registry,
      codes "EVENT_TYPE_REGISTRY must be set when REJECT_UNKNOWN_EVENT_TYPES=true",
    )
    ∷ []

-- The messages of the conditions that hold.
unfoldable pub problems : List (Bool × Text) → List Text
problems [] = []
problems ((bad, message) ∷ rest) =
    let others = problems rest in if bad then message ∷ others else others

-- strings.Join
unfoldable pub join : Text → List Text → Text
join separator [] = []
join separator (s ∷ []) = s
join separator (s ∷ t ∷ rest) = let others = join separator (t ∷ rest) in s ++ separator ++ others

abbrev pub error_of : List Text → Option Text
error_of [] = none
error_of (message ∷ messages) =
    some (codes "invalid configuration: " ++ join (codes "; ") (message ∷ messages))

-- The error, if there is one.
unfoldable pub validate : Config → Option Text
unfolding checks problems join
validate c = error_of (problems (checks c))
