-- ===== src/Limiter.antt =====
-- The token bucket of golang.org/x/time/rate that the limiters of internal/core/app.go use. It is
-- not part of the repository, so its type and operations are parameters.
use shiro_distributed_system.Common.{ℕ, Bool}

pub record Rate : Type 1 where
  pub Limiter : Type 0
  -- rate.NewLimiter with a limit and a burst.
  pub new_limiter : ℕ → ℕ → Limiter
  -- (*rate.Limiter).Allow at a time: the limiter afterwards and the answer.
  pub take_token : Limiter → ℕ → Limiter × Bool
