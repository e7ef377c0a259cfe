-- ===== src/Examples/Fronts.antt =====
-- Requests through the middleware to routes that panic.
use shiro_distributed_system.Common.{
  ◌≡◌, inl, refl, ℕ, true, none, some, [], ◌∷◌, Text, codes, text_eq, trim_space, pos, text_key,
}
use shiro_distributed_system.Common.Assoc.{lookup}
use shiro_distributed_system.Config.{Config}
use shiro_distributed_system.IpLimiter.{new_ip_rate_limiter}
use shiro_distributed_system.Middleware.{
  WebRequest, Serve, panicked, Front, Surroundings, server_handler, cors_headers,
}
use shiro_distributed_system.Middleware.Order.{IsTimeout, is_served, server_handler-restores}
use shiro_distributed_system.Middleware.Origins.{has_wildcard, cors_headers-wildcard}
use shiro_distributed_system.Examples.Memory.{defaults}
use shiro_distributed_system.Examples.Handlers.{tokens_left}

abbrev open_to_all : Config
open_to_all = record defaults {
  cors_enabled = true;
  cors_allowed_origins = codes "https://shop.example" ∷ codes " * " ∷ [];
}

abbrev surroundings : Surroundings tokens_left ℕ
surroundings = record {
  parse_addr_port = λ addr. none;
  random = λ s. none;
  now = λ s. s;
  timeout_handler = λ next. next;
}

abbrev panicking : Serve (Front tokens_left ℕ)
panicking r h s = (panicked none h, s)

abbrev request_by : Text → WebRequest
request_by method = record {
  method = method;
  path = codes "/events";
  remote_addr = codes "10.0.0.1:80";
  header = λ name. [];
}

abbrev idle : Front tokens_left ℕ
idle = record {
  limiter = new_ip_rate_limiter tokens_left 10 5 (pos 100) 60 0;
  guard = record { used = 0; capacity = 2 };
  inner = 4;
}

at_once : IsTimeout surroundings.timeout_handler
at_once next r h s = (refl, inl refl)

server_handler-restores_example :
    let x = server_handler surroundings open_to_all panicking (request_by (codes "POST")) [] idle in
    (is_served x.0 ≡ true) × (x.1.guard ≡ idle.guard)
server_handler-restores_example =
    server_handler-restores surroundings open_to_all panicking (λ r h s. refl) at_once
      (request_by (codes "POST")) [] idle

cors_headers-wildcard_example :
    let h = cors_headers open_to_all (codes "https://evil.example") [] in
    (lookup (codes "Access-Control-Allow-Origin") h ≡ some (codes "https://evil.example"))
    × (lookup (codes "Access-Control-Allow-Credentials") h ≡ some (codes "true"))
unfolding has_wildcard text_eq trim_space
cors_headers-wildcard_example =
    cors_headers-wildcard open_to_all (codes "https://evil.example") [] refl refl
