-- ===== src/Arith/Quantize/Pad.antt =====
-- Zeros that decQuantizeOp adds, and the count of digits in its result.
use cpp_decimal.Base.{
  ℕ, zero, suc, ◌+◌, ◌*◌, ◌/◌, ◌%◌, ◌^◌, ◌≤◌, ◌<◌, ◌≡◌, ◌⊎◌, refl, arith, inl, inr, pow-suc,
  one-le-pow,
}
use cpp_decimal.Base.{Bool, true}
use cpp_decimal.Base.Int.{pos, negsuc, ◌+ℤ◌, ltb_ℤ}
use cpp_decimal.Arith.Quantize.{pad_out}
use cpp_decimal.Arith.Quantize.Adjust.{IsAdjusted, digits_below}
use cpp_decimal.Context.{Rounding}
use cpp_decimal.Number.{DecNumber, IsCoefficient}
use cpp_decimal.Number.Digits.Laws.{IsDigits}
use cpp_decimal.Number.Sign.{copy}
use cpp_decimal.Number.Sign.Laws.{copy_units_lem}
use cpp_decimal.Round.Apply.Laws.{rounds_up-exact}
use cpp_decimal.Round.Correct.{ten-add}
use cpp_decimal.Round.Finalize.{lengthen}
use cpp_decimal.Round.Settle.{quotient_le}
use cpp_decimal.Round.Spec.{round_quotient}
use cpp_decimal.Units.{value}
use cpp_decimal.Units.Shift.Laws.{shift_to_most_lem}

-- Division by one.
pub round_quotient-one :
    (mode : Rounding) (negative : Bool) (n : ℕ) → round_quotient mode negative n (10 ^ 0) ≡ n
unfolding round_quotient
round_quotient-one mode negative n =
    rw (rest, whole, rounds_up-exact mode negative n 1 (omega arith)) (omega arith)
  where
    rest : 2 * (n % 1) ≡ 0
    rest = omega arith

    whole : n / 1 ≡ n
    whole = omega arith

-- The quotient is not below that without rounding.
pub round_quotient-le :
    (mode : Rounding) (negative : Bool) (n p : ℕ) → n / p ≤ round_quotient mode negative n p
unfolding round_quotient
round_quotient-le mode negative n p = omega arith

-- The leading digit of a number that is not 0.
leading : (d v : ℕ) → (suc d ≡ 1) ⊎ (10 ^ suc d ≤ 10 * v) → 0 < v → 10 ^ d ≤ v
leading d v (inl e) h = rw zeroth (omega (arith, h))
  where
    zeroth : d ≡ 0
    zeroth = omega (arith, e)
leading d v (inr l) h = omega (arith, l, pow-suc 10 d)

pub copied : (dn : DecNumber) → IsCoefficient dn.digits dn.lsu → copy dn ≡ dn
unfolding copy
copied dn c = rw (copy_units_lem dn.digits dn.lsu c) refl

-- A valid coefficient is counted.
pub counted : (dn : DecNumber) → IsCoefficient dn.digits dn.lsu → IsDigits (value dn.lsu) dn.digits
counted dn c = record { some_digit = c.some_digit; fits = c.fits; leading = c.leading }

-- The digits of a number that is not 0, with `k` zeros.
padded : (v d k n : ℕ) → IsDigits v d → 0 < v → n ≡ d + k → IsDigits (v * 10 ^ k) n
padded v d k n i full e = rw e (record {
  some_digit = omega (arith, i.some_digit);
  fits = rw (ten-add d k) (grow v (10 ^ d) (10 ^ k) i.fits (one-le-pow k 10 (omega arith)));
  leading = inr (rw (ten-add d k) (scale (10 ^ d) v (10 ^ k) (high d i.leading)));
})
  where
    grow : (a b p : ℕ) → a < b → 1 ≤ p → a * p < b * p
    grow a b p h k = grind arith

    scale : (a b p : ℕ) → a ≤ 10 * b → a * p ≤ 10 * (b * p)
    scale a b p h = omega (arith, below a (10 * b) p h, regroup b p)
      where
        below : (a b p : ℕ) → a ≤ b → a * p ≤ b * p
        below a b p h = grind arith

        regroup : (b p : ℕ) → 10 * b * p ≡ 10 * (b * p)
        regroup b p = grind arith

    high : (d : ℕ) → (d ≡ 1) ⊎ (10 ^ d ≤ 10 * v) → 10 ^ d ≤ 10 * v
    high d (inl one) = rw one (omega (arith, full))
    high d (inr l) = l

-- Zeros are added.
pub pad_out-IsAdjusted :
    (dn : DecNumber) (k status q : ℕ)
    → IsCoefficient dn.digits dn.lsu
    → dn.digits + suc k ≤ q
    → 0 < value dn.lsu
    → IsAdjusted
        (value dn.lsu * 10 ^ suc k)
        q
        (dn.exponent +ℤ negsuc k)
        dn.bits
        (pad_out dn (negsuc k) status)
unfolding pad_out lengthen
pad_out-IsAdjusted dn k status q c short full =
    let m = shift_to_most_lem dn.lsu dn.digits (suc k) c.units c.same_length c.some_digit c.fits in
    rw (down k, copied dn c)
      (record {
        total = m.total;
        exponent = refl;
        bits = refl;
        short = omega (arith, m.count, short);
        some_digit = omega (arith, m.count);
        kept = refl;
        digits = padded (value dn.lsu) dn.digits (suc k) _ (counted dn c) full m.count;
      })
  where
    down : (k : ℕ) → ltb_ℤ (negsuc k) (pos 0) ≡ true
    down k = ground arith

-- The exponent stays.
pub pad_none :
    (dn : DecNumber) (status q : ℕ)
    → IsCoefficient dn.digits dn.lsu
    → dn.digits ≤ q
    → IsAdjusted (value dn.lsu) q dn.exponent dn.bits (pad_out dn (pos 0) status)
unfolding pad_out
pad_none dn status q c short = rw (copied dn c) (record {
  total = refl;
  exponent = refl;
  bits = refl;
  short = short;
  some_digit = c.some_digit;
  kept = refl;
  digits = counted dn c;
})

-- The digits of a product with a power of ten.
pub digits_within :
    (d v k q : ℕ) → (d ≡ 1) ⊎ (10 ^ d ≤ 10 * v) → 0 < d → 0 < v → v * 10 ^ k < 10 ^ q → d + k ≤ q
digits_within zero v k q l p h small = absurd (omega (arith, p))
digits_within (suc d) v k q l p h small =
    let below =
      digits_below (d + k) q (v * 10 ^ k)
        (rw (ten-add d k) (grow (10 ^ d) v (10 ^ k) (leading d v l h))) small in
    omega (arith, below)
  where
    grow : (a b p : ℕ) → a ≤ b → a * p ≤ b * p
    grow a b p h = grind arith

-- The digits that are kept.
pub digits_kept :
    (p d v n : ℕ)
    → (suc p + suc d ≡ 1) ⊎ (10 ^ (suc p + suc d) ≤ 10 * v)
    → v / 10 ^ suc d ≤ n
    → 10 ^ p ≤ n
digits_kept p d v n l le =
    let ten = leading (p + suc d) v (longer p d l) (some_value p d l) in
    let q' =
      quotient_le v (v / 10 ^ suc d) (10 ^ suc d) (10 ^ p) (v % 10 ^ suc d) (parts v (10 ^ suc d))
        (rest v (10 ^ suc d) (one-le-pow (suc d) 10 (omega arith)))
        (omega (arith, ten, ten-add p (suc d), swap (10 ^ p) (10 ^ suc d))) in
    omega (arith, q', le)
  where
    longer :
        (p d : ℕ)
        → (suc p + suc d ≡ 1) ⊎ (10 ^ (suc p + suc d) ≤ 10 * v)
        → (suc (p + suc d) ≡ 1) ⊎ (10 ^ suc (p + suc d) ≤ 10 * v)
    longer p d (inl e) = inl (omega (arith, e))
    longer p d (inr h) = inr (rw (one p d) at h)
      where
        one : (p d : ℕ) → suc p + suc d ≡ suc (p + suc d)
        one p d = omega arith

    some_value : (p d : ℕ) → (suc p + suc d ≡ 1) ⊎ (10 ^ (suc p + suc d) ≤ 10 * v) → 0 < v
    some_value p d (inl e) = absurd (omega (arith, e))
    some_value p d (inr h) = omega (arith, h, one-le-pow (suc p + suc d) 10 (omega arith))

    parts : (v p : ℕ) → v ≡ v / p * p + v % p
    parts v p = grind arith

    rest : (v p : ℕ) → 1 ≤ p → v % p < p
    rest v p h = grind arith

    swap : (a b : ℕ) → a * b ≡ b * a
    swap a b = grind arith
