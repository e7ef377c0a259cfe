-- ===== src/Common/Decimal.antt =====
-- Decimal numerals: what `%d` and strconv print of a number, and how strconv reads digits.
use Prim.Native.Nat.{ℕ, zero, suc, ◌+◌, ◌-◌, ◌*◌, ◌/◌, ◌%◌, ◌<◌}
use mathlib.Core.Path.{◌≡◌, refl, sym, ap, ◌∙◌}
use mathlib.Core.Bool.{Bool, true, false, ◌&&◌}
use mathlib.Core.Option.{Option, none, some}
use mathlib.Core.List.{[], ◌∷◌}
use native.Mathlib.Omega.{arith}
use shiro_distributed_system.Common.Tests.{ltb, leb, if◌then◌else◌}
use shiro_distributed_system.Common.Strings.{Text, is_empty}

-- The number that digits stand for, after those that are read.
unfoldable pub digits_from : ℕ → Text → Option ℕ
digits_from n [] = some n
digits_from n (c ∷ s) =
    let rest = digits_from (n * 10 + (c - b'0')) s in
    if leb b'0' c && leb c b'9' then rest else none

-- The digits of a number in front of a text; fuel above the number is enough.
emit : ℕ → ℕ → Text → Text
emit zero n out = out
emit (suc fuel) n out =
    let rest = emit fuel (n / 10) ((b'0' + n % 10) ∷ out) in
    if ltb n 10 then (b'0' + n) ∷ out else rest

unfoldable pub decimal : ℕ → Text
unfolding emit
decimal n = emit (suc n) n []

digits_from-emit :
    (fuel n : ℕ) (out : Text) → n < fuel → digits_from 0 (emit fuel n out) ≡ digits_from n out
unfolding emit digits_from
digits_from-emit zero n out h = absurd (omega arith)
digits_from-emit (suc fuel) n out h =
    ground (arith, digits_from-emit fuel (n / 10) ((b'0' + n % 10) ∷ out))

-- A numeral reads as its number.
pub digits_from-decimal : (n : ℕ) → digits_from 0 (decimal n) ≡ some n
unfolding decimal digits_from
digits_from-decimal n = digits_from-emit (suc n) n [] (omega arith)

-- Whether every character is a digit.
unfoldable pub are_digits : Text → Bool
are_digits [] = true
are_digits (c ∷ s) = (leb b'0' c && leb c b'9') && are_digits s

emit-are_digits :
    (fuel n : ℕ) (out : Text) → are_digits out ≡ true → are_digits (emit fuel n out) ≡ true
unfolding emit are_digits
emit-are_digits zero n out h = h
emit-are_digits (suc fuel) n out h =
    ground (arith, h, emit-are_digits fuel (n / 10) ((b'0' + n % 10) ∷ out))

pub decimal-are_digits : (n : ℕ) → are_digits (decimal n) ≡ true
unfolding decimal are_digits
decimal-are_digits n = emit-are_digits (suc n) n [] refl

some_eq : (m n : ℕ) → some m ≡ some n → m ≡ n
some_eq m n e = ground arith

pub decimal_injective : (m n : ℕ) → decimal m ≡ decimal n → m ≡ n
decimal_injective m n e =
    some_eq m n (sym (digits_from-decimal m) ∙ ap (digits_from 0) e ∙ digits_from-decimal n)

emit_not_empty : (fuel n : ℕ) (out : Text) → n < fuel → is_empty (emit fuel n out) ≡ false
unfolding emit
emit_not_empty zero n out h = absurd (omega arith)
emit_not_empty (suc fuel) n out h =
    ground (arith, emit_not_empty fuel (n / 10) ((b'0' + n % 10) ∷ out))

pub decimal_not_empty : (n : ℕ) → is_empty (decimal n) ≡ false
unfolding decimal
decimal_not_empty n = emit_not_empty (suc n) n [] (omega arith)
