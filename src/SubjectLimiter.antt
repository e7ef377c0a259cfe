-- ===== src/SubjectLimiter.antt =====
-- The rate limiter by subject of internal/core/app.go.
pub mod Buckets
use shiro_distributed_system.Common.{
  ℕ, Bool, none, some, List, [], ◌∷◌, Text, ℤ, pos, pos_part, ltb_ℤ, if◌then◌else◌, text_key, ◌*ℤ◌,
  wrap64,
}
use shiro_distributed_system.Common.Assoc.{Map, lookup, insert}
use shiro_distributed_system.GoMax.{max}
use shiro_distributed_system.Limiter.{Rate}

module _ (rate : Rate) where
  open rate use {Limiter, new_limiter, take_token}

  pub record SubjectRateLimiter : Type 0 where
    pub default_r : ℕ
    pub default_b : ℕ
    pub overrides : Map Text ℤ
    pub limiters : Map Text Limiter

  -- The overrides are copied, so that the caller's map may change.
  unfoldable pub new_subject_rate_limiter : ℕ → ℤ → Map Text ℤ → SubjectRateLimiter
  new_subject_rate_limiter default_r default_b overrides = record {
    default_r = default_r;
    default_b = pos_part (max (pos 1) default_b);
    overrides = overrides;
    limiters = [];
  }

  -- The limit and the burst of a subject's bucket: an override that is positive counts. The
  -- product is of Go's `int`, and wraps.
  unfoldable pub limits : SubjectRateLimiter → Text → ℕ × ℕ
  unfolding max ◌*ℤ◌ wrap64
  limits l subject = elim (lookup subject l.overrides) [
    | none ↦ (l.default_r, l.default_b)
    | some ov ↦
        if ltb_ℤ (pos 0) ov
        then (pos_part ov, pos_part (max (pos 1) (wrap64 (ov *ℤ pos 2))))
        else (l.default_r, l.default_b)
  ]

  unfoldable pub bucket : SubjectRateLimiter → Text → Limiter
  bucket l subject = elim (lookup subject l.limiters) [
    | some lim ↦ lim
    | none ↦ new_limiter (limits l subject).0 (limits l subject).1
  ]

  unfoldable pub allow : SubjectRateLimiter → Text → ℕ → SubjectRateLimiter × Bool
  unfolding bucket
  allow l subject now =
      let taken = take_token (bucket l subject) now in
      (record l { limiters = insert subject taken.0 l.limiters }, taken.1)

  unfoldable pub run : SubjectRateLimiter → List (Text × ℕ) → SubjectRateLimiter
  run l [] = l
  run l ((subject, now) ∷ calls) = run (allow l subject now).0 calls
