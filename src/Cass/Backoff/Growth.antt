-- ===== src/Cass/Backoff/Growth.antt =====
-- The waiting time after the n-th failure (internal/modules/cassstore/module.go).
use native.Mathlib.Nat.{pow-suc}
use shiro_distributed_system.Common.{
  ℕ, zero, suc, ◌+◌, ◌-◌, ◌*◌, ◌/◌, ◌^◌, ◌≤◌, ◌<◌, min, ◌≡◌, ◌⊎◌, inl, inr, ap, ℤ, pos, negsuc,
  ◌*ℤ◌, ◌+ℤ◌, ◌-ℤ◌, leb, ltb, ◌&&◌, wrap64, wrap64_fits, arith, Bool-cases,
}
use shiro_distributed_system.Cass.Backoff.{grow, jitter, backoff, millisecond, quot}

pow_pos : (k : ℕ) → 1 ≤ 2 ^ k
pow_pos zero = omega arith
pow_pos (suc k) = omega (arith, pow-suc 2 k, pow_pos k)

double_fits : (w : ℕ) → w < 2 ^ 62 → wrap64 (pos w *ℤ pos 2) ≡ pos (w * 2)
unfolding ◌*ℤ◌
double_fits w h = ground (arith, wrap64_fits (w * 2))

scale : (w k : ℕ) → w * 2 * 2 ^ k ≡ w * 2 ^ suc k
scale w k = omega (arith, ap (λ t. w * t) (pow-suc 2 k))

le-scaled : (n p : ℕ) → 1 ≤ p → n ≤ n * p
le-scaled n p h = grind arith

scaled-ge : (w k most : ℕ) → most ≤ w * 2 → most ≤ w * 2 ^ suc k
scaled-ge w k most h = omega (arith, scale w k, le-scaled (w * 2) (2 ^ k) (pow_pos k))

-- The loop of k rounds multiplies by 2 ^ k, or stops at the maximum: the shortcut changes nothing,
-- and below 2 ^ 62 nanoseconds, some 146 years, no product wraps.
grow-value :
    (k base most : ℕ)
    → base ≤ most
    → most < 2 ^ 62
    → grow k (pos base) (pos most) ≡ pos (min (base * 2 ^ k) most)
unfolding grow
grow-value zero base most h b = ap pos (omega arith)
grow-value (suc k) base most h b = elim (Bool-cases (leb most (base * 2))) [
  | inl stops ↦ ground (arith, double_fits base, scaled-ge base k most)
  | inr goes ↦ ground (arith, double_fits base, scale base k, grow-value k (base * 2) most)
]

-- The range of the jitter, in milliseconds.
abbrev range_of : ℕ → ℕ → ℕ
range_of percent wait = wait / millisecond * percent / 100

range_small :
    (percent wait : ℕ) → percent ≤ 100 → wait / millisecond * percent ≤ wait / millisecond * 100
range_small percent wait h = grind arith

range_value :
    (percent wait : ℕ)
    → percent ≤ 100
    → wait < 2 ^ 62
    → quot (wrap64 (quot (pos wait) millisecond *ℤ pos percent)) 100 ≡ pos (range_of percent wait)
unfolding ◌*ℤ◌
range_value percent wait h b =
    ground (arith, wrap64_fits (wait / millisecond * percent), range_small percent wait h)

wrap64_neg : (n : ℕ) → n < 2 ^ 63 → wrap64 (negsuc n) ≡ negsuc n
unfolding wrap64
wrap64_neg n h = ground arith

-- A draw `i` of the range `r` moves the wait by `i - r` milliseconds, with no wrap.
moved_value :
    (wait r i : ℕ)
    → i ≤ 2 * r
    → r * millisecond ≤ wait
    → wait < 2 ^ 62
    → wrap64 (pos wait +ℤ wrap64 ((pos i -ℤ pos r) *ℤ pos millisecond))
      ≡ pos (wait + i * millisecond - r * millisecond)
unfolding ◌*ℤ◌ ◌+ℤ◌ ◌-ℤ◌
moved_value wait r i h k b = elim (Bool-cases (leb r i)) [
  | inl up ↦
      ground
        (arith, wrap64_fits ((i - r) * millisecond), wrap64_fits (wait + (i - r) * millisecond))
  | inr down ↦
      ground
        (arith, wrap64_neg ((r - i) * millisecond - 1), wrap64_fits (wait - (r - i) * millisecond))
]

-- A wait within the jitter's range of another, or the floor of ten milliseconds.
abbrev pub IsNear : ℕ → ℕ → ℤ → Type 0
IsNear wait range result =
    (v : ℕ) × (result ≡ pos v)
    × (wait ≤ v + range * millisecond)
    × ((v ≤ wait + range * millisecond) ⊎ (v ≡ 10 * millisecond))

range_fits : (percent wait : ℕ) → percent ≤ 100 → range_of percent wait * millisecond ≤ wait
range_fits percent wait h = omega (arith, range_small percent wait h)

jitter-IsNear :
    (intn : ℕ → ℕ) (percent wait : ℕ)
    → ((n : ℕ) → 1 ≤ n → intn n < n)
    → percent ≤ 100
    → wait < 2 ^ 62
    → IsNear wait (range_of percent wait) (jitter intn (pos percent) (pos wait))
unfolding jitter
jitter-IsNear intn percent wait draws h b =
    let r = range_of percent wait in
    let i = intn (r * 2 + 1) in
    let drawn = draws (r * 2 + 1) (omega arith) in
    let fits = range_fits percent wait h in
    let moved = wait + i * millisecond - r * millisecond in
    let range = range_value percent wait h b in
    let value = moved_value wait r i (omega arith) fits b in
    elim (Bool-cases (ltb 0 percent && ltb 0 r)) [
      | inr still ↦ (wait, ground arith, ground arith, ground arith)
      | inl moves ↦ elim (Bool-cases (ltb moved (10 * millisecond))) [
        | inl floor ↦ (10 * millisecond, ground arith, ground arith, ground arith)
        | inr far ↦ (moved, ground arith, ground arith, ground arith)
      ]
    ]

-- With a base at most the maximum, a maximum below 2 ^ 62 nanoseconds and a jitter of at most 100
-- per cent, the wait after the n-th failure is base * 2 ^ (n - 1), cut off at the maximum, give or
-- take that percentage of it (in whole milliseconds); only the floor of ten milliseconds may lift it
-- above that range. It is never negative.
pub backoff-IsNear :
    (intn : ℕ → ℕ) (base most percent n : ℕ)
    → ((k : ℕ) → 1 ≤ k → intn k < k)
    → base ≤ most
    → most < 2 ^ 62
    → percent ≤ 100
    → let wait = min (base * 2 ^ (n - 1)) most in
      IsNear wait
        (wait / millisecond * percent / 100)
        (backoff intn (pos base) (pos most) (pos percent) n)
unfolding backoff
backoff-IsNear intn base most percent n draws ordered small pct =
    rw (grow-value (n - 1) base most ordered small)
      (jitter-IsNear intn percent (min (base * 2 ^ (n - 1)) most) draws pct (omega arith))
