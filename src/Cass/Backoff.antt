-- ===== src/Cass/Backoff.antt =====
-- The waiting time of `RecordOutboxFailure` in internal/modules/cassstore/module.go. Durations are
-- `int64` nanoseconds: products and sums wrap at 64 bits.
pub mod Growth
use shiro_distributed_system.Common.{
  ℕ, zero, suc, ◌+◌, ◌-◌, ◌*◌, ◌/◌, Bool, ℤ, pos, negsuc, pos_part, neg_part, sub_ℕ, ◌+ℤ◌, ◌-ℤ◌,
  ◌*ℤ◌, leb_ℤ, ltb_ℤ, wrap64, if◌then◌else◌,
}

-- Go's division by a positive number rounds towards zero.
abbrev pub quot : ℤ → ℕ → ℤ
quot (pos n) k = pos (n / k)
quot (negsuc n) k = sub_ℕ 0 (suc n / k)

abbrev pub millisecond : ℕ
millisecond = 1_000_000

-- The loop over `i`, with the rounds that are left: doubles the wait, up to the maximum.
unfoldable pub grow : ℕ → ℤ → ℤ → ℤ
grow zero wait most = wait
grow (suc k) wait most =
    let doubled = wrap64 (wait *ℤ pos 2) in
    let rest = grow k doubled most in if leb_ℤ most doubled then most else rest

-- `intn n` is the number below `n` that `rand.Intn` draws.
unfoldable pub jitter : (ℕ → ℕ) → ℤ → ℤ → ℤ
jitter intn percent wait =
    let range = quot (wrap64 (quot wait millisecond *ℤ percent)) 100 in
    if ltb_ℤ (pos 0) percent
    then if ltb_ℤ (pos 0) range
      then (let delta = pos (intn (pos_part range * 2 + 1)) -ℤ range in
          let moved = wrap64 (wait +ℤ wrap64 (delta *ℤ pos millisecond)) in
          if ltb_ℤ moved (pos (10 * millisecond)) then pos (10 * millisecond) else moved)
      else wait
    else wait

-- The wait after the failure of the given number.
unfoldable pub backoff : (ℕ → ℕ) → ℤ → ℤ → ℤ → ℕ → ℤ
unfolding grow jitter
backoff intn base most percent retry_count = jitter intn percent (grow (retry_count - 1) base most)

-- now.Add(wait)
abbrev pub add_time : ℕ → ℤ → ℕ
add_time now wait = now + pos_part wait - neg_part wait
