-- ===== src/Round/Spec.antt =====
-- What rounding means: the eight modes on a quotient and its remainder, as the General Decimal
-- Arithmetic specification states them.
use cpp_decimal.Base.{
  ℕ, ◌+◌, ◌*◌, ◌/◌, ◌%◌, ◌^◌, ◌<◌, ◌≤◌, ◌≡◌, Bool, false, not, ◌&&◌, ◌||◌, ltb, leb, ◌==◌, length,
}
use cpp_decimal.Base.{if◌then◌else◌}
use cpp_decimal.Base.Int.{ℤ, pos, ◌+ℤ◌}
use cpp_decimal.Context.{Rounding}
use cpp_decimal.Number.{DecNumber}
use cpp_decimal.Units.{value, IsUnits}

-- The rounding modes, for a quotient `q` and `x`, twice the remainder and one more for a sticky digit,
-- by the divisor `p`: whether the quotient goes up.
unfoldable pub rounds_up : Rounding → Bool → ℕ → ℕ → ℕ → Bool
rounds_up Rounding.ceiling negative q x p = not negative && ltb 0 x
rounds_up Rounding.up negative q x p = ltb 0 x
rounds_up Rounding.half_up negative q x p = leb p x
rounds_up Rounding.half_even negative q x p = ltb p x || (x == p && q % 2 == 1)
rounds_up Rounding.half_down negative q x p = ltb p x
rounds_up Rounding.down negative q x p = false
rounds_up Rounding.floor negative q x p = negative && ltb 0 x
rounds_up Rounding.up05 negative q x p = ltb 0 x && q % 5 == 0
rounds_up Rounding.max negative q x p = false

-- `n` / `p`, rounded to an integer.
unfoldable pub round_quotient : Rounding → Bool → ℕ → ℕ → ℕ
round_quotient mode negative n p =
    n / p + (if rounds_up mode negative (n / p) (2 * (n % p)) p then 1 else 0)

-- `dn` stands for `n` * 10 ^ `e` (sign apart), in `digits` digits, with the bits `b`. Its exponent is `e`, or one
-- more after a carry, which takes a number of one digit more.
pub record IsScaled (n digits : ℕ) (e : ℤ) (b : ℕ) (dn : DecNumber) : Type 0 where
  pub shift : ℕ
  pub short_shift : shift ≤ 1
  pub exponent : dn.exponent ≡ e +ℤ pos shift
  pub total : value dn.lsu * 10 ^ shift ≡ n
  pub same_digits : dn.digits ≡ digits
  pub fits : value dn.lsu < 10 ^ digits
  pub units : IsUnits dn.lsu
  pub bits : dn.bits ≡ b
  pub carried : shift ≡ 1 → (10 ^ digits ≤ n) × (length dn.lsu ≡ (digits + 1) / 2)
