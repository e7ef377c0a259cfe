-- ===== src/SubjectLimiter/Buckets.antt =====
-- The limiter refines one token bucket for each subject (internal/core/app.go).
use shiro_distributed_system.Common.{
  ℕ, zero, suc, ◌≡◌, refl, some, none, Option, List, [], ◌∷◌, Text, ℤ, pos, negsuc, pos_part, arith,
  text_key, text_eq, text_eq_iff, if◌then◌else◌, ◌*ℤ◌, wrap64,
}
use shiro_distributed_system.Common.Assoc.{Map, lookup, lookup-insert}
use shiro_distributed_system.GoMax.{max}
use shiro_distributed_system.Limiter.{Rate}
use shiro_distributed_system.SubjectLimiter.{
  SubjectRateLimiter, new_subject_rate_limiter, limits, bucket, allow, run,
}

module _ (rate : Rate) where
  open rate use {Limiter, new_limiter, take_token}

  -- The bucket after the requests for one subject, in their order.
  pub drain : Text → Limiter → List (Text × ℕ) → Limiter
  drain subject lim [] = lim
  drain subject lim ((j, now) ∷ calls) =
      drain subject (if text_eq j subject then (take_token lim now).0 else lim) calls

  limits-allow :
      (l : SubjectRateLimiter rate) (j subject : Text) (now : ℕ)
      → limits rate (allow rate l j now).0 subject ≡ limits rate l subject
  unfolding allow limits
  limits-allow l j subject now = refl

  bucket-allow :
      (l : SubjectRateLimiter rate) (j subject : Text) (now : ℕ)
      → bucket rate (allow rate l j now).0 subject ≡ (
          if text_eq j subject
          then (take_token (bucket rate l subject) now).0
          else bucket rate l subject)
  unfolding allow bucket
  bucket-allow l j subject now =
      let used = (take_token (bucket rate l j) now).0 in
      ground (
        arith,
        text_eq_iff j subject,
        limits-allow l j subject now,
        lookup-insert j subject used l.limiters,
      )

  -- After any sequence of requests the bucket of a subject is what its own requests alone make of
  -- the bucket that it had: requests for other subjects cost it nothing and give it nothing.
  pub bucket-run :
      (l : SubjectRateLimiter rate) (subject : Text) (calls : List (Text × ℕ))
      → bucket rate (run rate l calls) subject ≡ drain subject (bucket rate l subject) calls
  unfolding run drain
  bucket-run l subject [] = refl
  bucket-run l subject ((j, now) ∷ calls) =
      ground (arith, bucket-allow l j subject now, bucket-run (allow rate l j now).0 subject calls)

  -- The limit and the burst that the configuration means for a subject.
  pub chosen : ℕ → ℤ → Option ℤ → ℕ × ℕ
  chosen r b (some (pos (suc n))) = (suc n, pos_part (max (pos 1) (wrap64 (pos (suc n) *ℤ pos 2))))
  chosen r b _ = (r, pos_part (max (pos 1) b))

  chosen-limits :
      (r : ℕ) (b : ℤ) (o : Option ℤ) (overrides : Map Text ℤ) (subject : Text)
      → lookup subject overrides ≡ o
      → limits rate (new_subject_rate_limiter rate r b overrides) subject ≡ chosen r b o
  unfolding limits new_subject_rate_limiter chosen
  chosen-limits r b none overrides subject h = ground arith
  chosen-limits r b (some (pos zero)) overrides subject h = ground arith
  chosen-limits r b (some (pos (suc n))) overrides subject h = ground arith
  chosen-limits r b (some (negsuc n)) overrides subject h = ground arith

  -- In a new limiter a subject with a positive override has a fresh bucket of that rate and twice
  -- that burst in Go's `int`; every other subject has one of the default rate and the default burst, or a burst
  -- of 1 if the default is less.
  bucket-new :
      (r : ℕ) (b : ℤ) (overrides : Map Text ℤ) (subject : Text)
      → bucket rate (new_subject_rate_limiter rate r b overrides) subject
        ≡ new_limiter
            (chosen r b (lookup subject overrides)).0
            (chosen r b (lookup subject overrides)).1
  unfolding bucket lookup new_subject_rate_limiter
  bucket-new r b overrides subject =
      let same = chosen-limits r b _ overrides subject refl in cc same
