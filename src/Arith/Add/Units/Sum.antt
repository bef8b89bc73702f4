-- ===== src/Arith/Add/Units/Sum.antt =====
-- The units of an aligned sum stand for the sum or the difference, every digit of it.
use cpp_decimal.Base.{
  ℕ, zero, suc, ◌+◌, ◌-◌, ◌*◌, ◌/◌, ◌%◌, ◌^◌, ◌≤◌, ◌<◌, ◌≡◌, inl, inr, refl, arith, ap, ◌∙◌,
}
use cpp_decimal.Base.{Bool, true, false, not, has, bit_and, bit_xor, if◌then◌else◌, length, pow-suc}
use cpp_decimal.Base.Int.{ℤ, pos, neg, neg_ℕ, ◌+ℤ◌, ◌-ℤ◌, ◌*ℤ◌}
use cpp_decimal.Arith.Add.Units.{unit_shift, multiplier, add_units}
use cpp_decimal.Number.{DecNumber, neg_bit, is_special, special_bits}
use cpp_decimal.Number.Int32.Laws.{signed}
use cpp_decimal.Number.Laws.{sign_cases}
use cpp_decimal.Units.{value, IsUnits, d2u-eq, powers}
use cpp_decimal.Units.AddSub.{unit_add_sub}
use cpp_decimal.Units.AddSub.Loops.{IsSmall}
use cpp_decimal.Units.AddSub.Whole.{unit_add_sub_lem}
use cpp_decimal.Units.Shift.Spread.{pow_even}

unit_shift-eq : (padding : ℕ) → unit_shift padding ≡ padding / 2
unit_shift-eq padding = omega (arith, d2u-eq (padding + 1))

factor_at : (k r : ℕ) → r < 2 → (powers r * 100 ^ k ≡ 10 ^ (2 * k + r)) × (powers r ≤ 10)
factor_at k zero h = (rw (plus_zero k) (omega (arith, pow_even k)), omega arith)
  where
    plus_zero : (k : ℕ) → 2 * k + zero ≡ 2 * k
    plus_zero k = omega arith
factor_at k (suc zero) h =
    (rw (plus_one k) (omega (arith, pow_even k, pow-suc 10 (2 * k))), omega arith)
  where
    plus_one : (k : ℕ) → 2 * k + suc zero ≡ suc (2 * k)
    plus_one k = omega arith
factor_at k (suc (suc r)) h = absurd (omega arith)

-- Padding with zeros: a shift by whole units, and a factor of 1 or 10.
padding_factor :
    (padding : ℕ)
    → (multiplier padding * 100 ^ unit_shift padding ≡ 10 ^ padding) × (multiplier padding ≤ 10)
padding_factor padding =
    let f = factor_at (padding / 2) (padding % 2) (omega arith) in
    rw (unit_shift-eq padding, remainder padding)
      (f.0 ∙ ap (λ (t : ℕ). 10 ^ t) (halves padding), f.1)
  where
    remainder : (n : ℕ) → n - n / 2 * 2 ≡ n % 2
    remainder n = omega arith

    halves : (n : ℕ) → 2 * (n / 2) + n % 2 ≡ n
    halves n = omega arith

-- The signed factor, and what it makes of the shifted operand.
scaled_operand :
    (diffsign : Bool) (mult shifted v p : ℕ)
    → mult * shifted ≡ p
    → (if diffsign then neg (pos mult) else pos mult) *ℤ pos (shifted * v)
      ≡ (if diffsign then neg_ℕ (v * p) else pos (v * p))
scaled_operand diffsign mult shifted v p e =
    by_sign diffsign mult (shifted * v) (v * p) (regroup mult shifted v p e)
  where
    regroup : (m s v p : ℕ) → m * s ≡ p → m * (s * v) ≡ v * p
    regroup m s v p e = rw (← e) (grind arith)

    by_sign :
        (d : Bool) (m x y : ℕ)
        → m * x ≡ y
        → (if d then neg (pos m) else pos m) *ℤ pos x ≡ (if d then neg_ℕ y else pos y)
    by_sign true zero x y e = ground (arith, e)
    by_sign true (suc m) x y e = ground (arith, e)
    by_sign false m x y e = ground (arith, e)

-- The sign bit of the result.
sign_of :
    (bits : ℕ) (negative : Bool)
    → has (bit_xor (bit_and bits neg_bit) (if negative then neg_bit else 0)) neg_bit
      ≡ (if negative then not (has bits neg_bit) else has bits neg_bit)
sign_of bits true = elim (sign_cases bits) [
  | inl plus ↦ rw plus (ground (arith, plus))
  | inr minus ↦ rw minus (ground (arith, minus))
]
sign_of bits false = elim (sign_cases bits) [
  | inl plus ↦ rw plus (ground (arith, plus))
  | inr minus ↦ rw minus (ground (arith, minus))
]

-- The signed sum, by the sign of A.
abbrev pub signed_sum : Bool → Bool → ℕ → ℕ → ℤ
signed_sum negative diffsign a b =
    let s = if diffsign then pos a -ℤ pos b else pos a +ℤ pos b in if negative then neg s else s

-- `dn` has the value `x` at the exponent of `like`, in whole units.
pub record IsExact (x : ℤ) (like dn : DecNumber) : Type 0 where
  pub total : signed dn ≡ x
  pub units : IsUnits dn.lsu
  pub some_units : 1 ≤ length dn.lsu
  pub digits : dn.digits ≡ length dn.lsu * 2
  pub exponent : dn.exponent ≡ like.exponent

pub add_units-IsExact :
    (lhs rhs : DecNumber) (padding bits : ℕ) (diffsign : Bool)
    → IsUnits lhs.lsu
    → IsUnits rhs.lsu
    → 1 ≤ length lhs.lsu
    → IsExact
        (signed_sum (has bits neg_bit) diffsign (value lhs.lsu) (value rhs.lsu * 10 ^ padding))
        lhs
        (add_units lhs rhs padding bits diffsign)
unfolding add_units
add_units-IsExact lhs rhs padding bits diffsign hl hr some =
    let f = padding_factor padding in
    let mult : ℤ = if diffsign then neg (pos (multiplier padding)) else pos (multiplier padding) in
    let r = unit_add_sub lhs.lsu rhs.lsu (unit_shift padding) mult in
    let sum =
      unit_add_sub_lem lhs.lsu rhs.lsu (unit_shift padding) mult hl hr
        (small diffsign (multiplier padding) f.1) in
    record {
      total = rw (sign_of bits r.negative) (
          signs (has bits neg_bit) diffsign r.negative (value r.units) (value lhs.lsu)
            (value rhs.lsu * 10 ^ padding)
            (sum.0
              ∙ ap (λ (t : ℤ). pos (value lhs.lsu) +ℤ t)
                  (scaled_operand diffsign (multiplier padding) _ (value rhs.lsu) _ f.0)));
      units = sum.1;
      some_units = omega (arith, sum.3);
      digits = refl;
      exponent = refl;
    }
  where
    small : (d : Bool) (m : ℕ) → m ≤ 10 → IsSmall (if d then neg (pos m) else pos m)
    small true m h = ground arith
    small false m h = ground arith

    signs :
        (n d r : Bool) (v a b : ℕ)
        → (if r then neg_ℕ v else pos v) ≡ pos a +ℤ (if d then neg_ℕ b else pos b)
        → (if (if r then not n else n) then neg_ℕ v else pos v) ≡ signed_sum n d a b
    signs true true r v a b e = ground (arith, e)
    signs true false r v a b e = ground (arith, e)
    signs false true r v a b e = ground (arith, e)
    signs false false r v a b e = ground (arith, e)

-- The sum is a finite number.
pub plain_sum :
    (lhs rhs : DecNumber) (padding bits : ℕ) (diffsign : Bool)
    → is_special (add_units lhs rhs padding bits diffsign) ≡ false
unfolding add_units
plain_sum lhs rhs padding bits diffsign =
    plain
      (unit_add_sub lhs.lsu rhs.lsu (unit_shift padding)
        (if diffsign then neg (pos (multiplier padding)) else pos (multiplier padding))).negative
  where
    plain :
        (negative : Bool)
        → has (bit_xor (bit_and bits neg_bit) (if negative then neg_bit else 0)) special_bits
          ≡ false
    plain true = elim (sign_cases bits) [ inl plus ↦ rw plus refl | inr minus ↦ rw minus refl ]
    plain false = elim (sign_cases bits) [ inl plus ↦ rw plus refl | inr minus ↦ rw minus refl ]
