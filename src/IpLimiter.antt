-- ===== src/IpLimiter.antt =====
-- The rate limiter by client address of internal/core/app.go. Times are nanoseconds; the order of
-- the association list stands for the order in which Go ranges over the map.
pub mod Tables
pub mod Bounded
pub mod Isolation
use shiro_distributed_system.Common.{
  ℕ, ◌+◌, ◌-◌, ◌*◌, Bool, true, false, not, ◌&&◌, Option, none, some, List, [], ◌∷◌, Text, ℤ, pos,
  pos_part, ltb, leb, if◌then◌else◌, text_key, length, select, is_empty,
}
use shiro_distributed_system.Common.Assoc.{Map, lookup, insert, delete}
use shiro_distributed_system.GoMax.{max}
use shiro_distributed_system.Limiter.{Rate}

abbrev pub minute : ℕ
minute = 60 * 1_000_000_000

module _ (rate : Rate) where
  open rate use {Limiter, new_limiter, take_token}

  pub record IpLimiterEntry : Type 0 where
    pub lim : Limiter
    pub last_seen : ℕ

  pub record IpRateLimiter : Type 0 where
    pub r : ℕ
    pub b : ℕ
    pub max_ips : ℕ
    pub ttl : ℕ
    pub next_sweep : ℕ
    pub entries : Map Text IpLimiterEntry
    pub last_evicted_ip : Text

  unfoldable pub new_ip_rate_limiter : ℕ → ℕ → ℤ → ℕ → ℕ → IpRateLimiter
  new_ip_rate_limiter r b max_ips ttl now = record {
    r = r;
    b = b;
    max_ips = pos_part (max (pos 100) max_ips);
    ttl = ttl;
    next_sweep = now + minute;
    entries = [];
    last_evicted_ip = [];
  }

  -- A cutoff before the epoch leaves every entry, and so does one that is cut off at 0.
  unfoldable pub sweep_locked : IpRateLimiter → ℕ → IpRateLimiter
  sweep_locked l now = if leb l.ttl 0 then record l { next_sweep = now + minute } else record l {
    entries = select (λ e. not (ltb e.1.last_seen (now - l.ttl))) l.entries;
    next_sweep = now + minute;
  }

  -- The loop of `evictOldestLocked`: the address and the time of the oldest entry so far.
  unfoldable pub oldest_from : Text × ℕ → Map Text IpLimiterEntry → Text × ℕ
  oldest_from best [] = best
  oldest_from best ((ip, e) ∷ m) =
      oldest_from (if ltb e.last_seen best.1 then (ip, e.last_seen) else best) m

  -- The first entry is taken whatever its time is.
  unfoldable pub oldest_ip : Map Text IpLimiterEntry → Text
  unfolding oldest_from
  oldest_ip [] = []
  oldest_ip ((ip, e) ∷ m) = (oldest_from (ip, e.last_seen) m).0

  unfoldable pub evict_oldest_locked : IpRateLimiter → IpRateLimiter
  evict_oldest_locked l =
      let ip = oldest_ip l.entries in
      if is_empty ip then l else record l { entries = delete ip l.entries; last_evicted_ip = ip }

  -- The entry of an address, made if there is none; in the limiter after the eviction.
  unfoldable pub find_or_make : IpRateLimiter → Text → ℕ → IpRateLimiter × IpLimiterEntry
  find_or_make l ip now = elim (lookup ip l.entries) [
    | some entry ↦ (l, entry)
    | none ↦ (
      if leb l.max_ips (length l.entries) then evict_oldest_locked l else l,
      record { lim = new_limiter l.r l.b; last_seen = now },
    )
  ]

  -- The entry is shared by pointer: what `entry.lim.Allow` changes is changed in the map.
  unfoldable pub allow : IpRateLimiter → Text → ℕ → IpRateLimiter × Bool
  allow l ip now =
      let swept = if ltb l.next_sweep now then sweep_locked l now else l in
      let found = find_or_make swept ip now in
      let taken = take_token found.1.lim now in
      let entry : IpLimiterEntry = record { lim = taken.0; last_seen = now } in
      (record found.0 { entries = insert ip entry found.0.entries }, taken.1)

  unfoldable pub run : IpRateLimiter → List (Text × ℕ) → IpRateLimiter
  run l [] = l
  run l ((ip, now) ∷ calls) = run (allow l ip now).0 calls
