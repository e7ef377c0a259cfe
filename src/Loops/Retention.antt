-- ===== src/Loops/Retention.antt =====
-- How long a key is kept (internal/core/app.go over internal/modules/cassstore/module.go).
use shiro_distributed_system.Common.{
  ◌≡◌, refl, ◌∙◌, ℕ, suc, ◌-◌, ◌*◌, ◌≤◌, some, Text, ℤ, pos, negsuc, pos_part, ◌+ℤ◌, ◌-ℤ◌, ◌*ℤ◌,
  wrap64, arith,
}
use shiro_distributed_system.GoMax.{max, max_floor}
use shiro_distributed_system.Config.{Config}
use shiro_distributed_system.Cass.Driver.{Cassandra, IsLawful}
use shiro_distributed_system.Cass.Append.Keys.{holder}
use shiro_distributed_system.Cass.Cleanup.Expiry.{IsYoung, cleanup_expired-holder}
use shiro_distributed_system.System.{Node, cass_store, cass_advanced, runtime}
use shiro_distributed_system.Loops.{before_hours, cleanup_turn}

-- The nanoseconds of an hour.
abbrev pub hour : ℕ
hour = 3_600_000_000_000

-- The hours for which keys are kept.
abbrev pub ttl : Config → ℕ
ttl cfg = pos_part (max (pos 1) cfg.idempotency_ttl_hours)

-- A span of n hours into the past, as a duration.
negated_hours :
    (n : ℕ) → 1 ≤ n → n ≤ 2_562_047 → wrap64 ((pos 0 -ℤ pos n) *ℤ pos hour) ≡ negsuc (n * hour - 1)
unfolding wrap64 ◌*ℤ◌ ◌-ℤ◌
negated_hours n low high = ground arith

minus_part : (now k : ℕ) → pos_part (pos now +ℤ negsuc k) ≡ now - suc k
unfolding ◌+ℤ◌
minus_part now k = ground arith

max_pos : (hours : ℤ) → max (pos 1) hours ≡ pos (pos_part (max (pos 1) hours))
unfolding max
max_pos hours = ground arith

before_hours-value :
    (hours : ℤ) (now : ℕ)
    → pos_part (max (pos 1) hours) ≤ 2_562_047
    → pos_part (before_hours hours now) ≡ now - pos_part (max (pos 1) hours) * hour
unfolding before_hours
before_hours-value hours now h =
    let n = pos_part (max (pos 1) hours) in
    let low = max_floor 1 hours in
    let past : pos_part (before_hours hours now) ≡ pos_part (pos now +ℤ negsuc (n * hour - 1)) =
      rw (max_pos hours, negated_hours n low h) refl in
    past ∙ minus_part now (n * hour - 1) ∙ omega arith

module _ (c : Cassandra) (lawful : IsLawful c) (n : Node c) (key : Text × Text) (id : ℕ) where
  open c use {tables}

  -- A turn of the cleanup loop keeps the idempotency keys that are younger than the configured hours,
  -- at least 1 and at most the 2,562,047 of a Duration: a key that the index does not date before that
  -- stays with its event, whatever statements fail and whatever other limits are configured.
  pub cleanup_turn-holder :
      (w : c.Db × n.host.Rest)
      → ttl n.config ≤ 2_562_047
      → IsYoung key (n.now w - ttl n.config * hour) (tables w.0).idempotency_by_created
      → holder key (tables w.0) ≡ some id
      → holder key
          (tables (cleanup_turn (runtime c n) n.config (some (cass_store c n.host n.session)) w).0)
        ≡ some id
  unfolding cleanup_turn cass_store cass_advanced
  cleanup_turn-holder w fits young held =
      cleanup_expired-holder c lawful key id n.session _ _ _ w.0
        (rw (before_hours-value n.config.idempotency_ttl_hours (n.now w) fits) young) held
