-- ===== src/Config/Parse/RoundTrip.antt =====
-- What is printed in decimal is read back, as far as it fits (internal/config/config.go).
use shiro_distributed_system.Common.{
  ◌≡◌, ℕ, ◌-◌, ◌^◌, true, false, none, some, [], ◌∷◌, Text, pos, arith, ltb, is_empty,
  if◌then◌else◌,
}
use shiro_distributed_system.Common.Decimal.{
  digits_from, are_digits, decimal, decimal-are_digits, digits_from-decimal, decimal_not_empty,
}
use shiro_distributed_system.Config.Parse.{atoi, at_most}

atoi-digits :
    (s : Text)
    → are_digits s ≡ true
    → is_empty s ≡ false
    → atoi s ≡ at_most (2 ^ 63 - 1) pos (digits_from 0 s)
unfolding atoi are_digits
atoi-digits [] h some_digit = absurd (ground arith)
atoi-digits (c ∷ s) h some_digit = ground arith

-- strconv.Atoi reads the decimal numeral of a number back if the number fits in 64 signed bits, and
-- refuses it if it does not.
pub atoi-decimal : (n : ℕ) → atoi (decimal n) ≡ (if ltb n (2 ^ 63) then some (pos n) else none)
atoi-decimal n =
    rw (atoi-digits (decimal n) (decimal-are_digits n) (decimal_not_empty n), digits_from-decimal n)
      (ground arith)
