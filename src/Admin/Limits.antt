-- ===== src/Admin/Limits.antt =====
-- The parameter `limit` of the query handlers (internal/core/app.go).
use shiro_distributed_system.Common.{◌≡◌, ℕ, ◌^◌, pos, arith, ltb, codes, if◌then◌else◌}
use shiro_distributed_system.Common.Decimal.{decimal, decimal_not_empty}
use shiro_distributed_system.Config.Parse.RoundTrip.{atoi-decimal}
use shiro_distributed_system.Admin.{HttpRequest, limit_of}

-- A limit that is written in decimal is the limit that the query handlers use, if it fits in 64 signed
-- bits; a number that does not fit is passed over, and the limit is 50.
pub limit_of-decimal :
    (r : HttpRequest) (n : ℕ)
    → r.query (codes "limit") ≡ decimal n
    → limit_of r ≡ (if ltb n (2 ^ 63) then pos n else pos 50)
unfolding limit_of
limit_of-decimal r n written =
    rw (written, decimal_not_empty n, atoi-decimal n, limit_of) (ground arith)
