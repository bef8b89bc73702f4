-- ===== src/Arith/Add/Signs.antt =====
-- The exact sum of two numbers, and how the aligned sums of decAddOp are that sum.
use cpp_decimal.Base.{ℕ, suc, ◌+◌, ◌*◌, ◌^◌, ◌≤◌, ◌<◌, ◌≡◌, ◌⊎◌, inl, inr, arith, sym, ◌∙◌}
use cpp_decimal.Base.{Bool, true, false, has, ◌==◌, not, if◌then◌else◌, pow-suc, one-le-pow}
use cpp_decimal.Base.{bit_xor, bit_and-power, bit-bit_xor, bit-lt}
use cpp_decimal.Base.Int.{ℤ, pos, pos_part, neg_part, neg, neg_ℕ, ◌+ℤ◌, ◌-ℤ◌, ltb_ℤ}
use cpp_decimal.Arith.Add.Units.Sum.{signed_sum}
use cpp_decimal.Number.{DecNumber, is_negative, is_zero, neg_bit}
use cpp_decimal.Number.Compare.Laws.{IsFinite}
use cpp_decimal.Number.Laws.{is_zero-eq}
use cpp_decimal.Round.Correct.{ten-add}
use cpp_decimal.Units.{value}
use native.Mathlib.Nat.{pow-le-pow_right}
use native.Mathlib.Decide.{dec_lt}

-- The operand of the lower exponent.
abbrev pub lower : DecNumber → DecNumber → DecNumber
lower lhs rhs = if ltb_ℤ rhs.exponent lhs.exponent then rhs else lhs

-- The other operand.
abbrev pub upper : DecNumber → DecNumber → DecNumber
upper lhs rhs = if ltb_ℤ rhs.exponent lhs.exponent then lhs else rhs

-- The coefficient at the exponent `e`, and the signed integer of it.
abbrev pub digits_at : DecNumber → ℤ → ℕ
digits_at dn e = value dn.lsu * 10 ^ pos_part (dn.exponent -ℤ e)

abbrev pub with_sign : Bool → ℕ → ℤ
with_sign negative n = if negative then neg_ℕ n else pos n

-- The sum, or the difference where `negate` has the sign bit, in units of the lower exponent.
abbrev pub exact_sum : DecNumber → DecNumber → ℕ → ℤ
exact_sum lhs rhs negate =
    let e = (lower lhs rhs).exponent in
    let b = with_sign (is_negative rhs) (digits_at rhs e) in
    with_sign (is_negative lhs) (digits_at lhs e) +ℤ (if has negate neg_bit then neg b else b)

abbrev pub xor : Bool → Bool → Bool
xor a b = if a then not b else b

pub has-bit_xor : (a b : ℕ) → has (bit_xor a b) neg_bit ≡ xor (has a neg_bit) (has b neg_bit)
has-bit_xor a b = ground (
  arith,
  bit_and-power 7 a,
  bit_and-power 7 b,
  bit_and-power 7 (bit_xor a b),
  bit-bit_xor 7 a b,
  bit-lt 7 a,
  bit-lt 7 b,
)

-- The signs: the aligned sum with the left operand first is the sum, and so is that with the right
-- one first, under its own sign.
pub left_first :
    (l r g : Bool) (a b : ℕ)
    → signed_sum l (xor (xor l r) g) a b
      ≡ with_sign l a +ℤ (if g then neg (with_sign r b) else with_sign r b)
left_first true true true a b = ground arith
left_first true true false a b = ground arith
left_first true false true a b = ground arith
left_first true false false a b = ground arith
left_first false true true a b = ground arith
left_first false true false a b = ground arith
left_first false false true a b = ground arith
left_first false false false a b = ground arith

pub right_first :
    (l r g : Bool) (a b : ℕ)
    → signed_sum (xor r g) (xor (xor l r) g) b a
      ≡ with_sign l a +ℤ (if g then neg (with_sign r b) else with_sign r b)
right_first true true true a b = ground arith
right_first true true false a b = ground arith
right_first true false true a b = ground arith
right_first true false false a b = ground arith
right_first false true true a b = ground arith
right_first false true false a b = ground arith
right_first false false true a b = ground arith
right_first false false false a b = ground arith

signed_sum_large :
    (n d : Bool) (a b m : ℕ)
    → a + m ≤ b
    → m ≤ pos_part (signed_sum n d a b) + neg_part (signed_sum n d a b)
signed_sum_large true true a b m h = ground arith
signed_sum_large true false a b m h = ground arith
signed_sum_large false true a b m h = ground arith
signed_sum_large false false a b m h = ground arith

-- A number that is not 0 uses its digits.
reaches : (dn : DecNumber) → IsFinite dn → is_zero dn ≡ false → 10 ^ dn.digits ≤ 10 * value dn.lsu
reaches dn f nz =
    by_leading f.coefficient.leading (positive (sym (is_zero-eq dn f.coefficient f.plain) ∙ nz))
  where
    positive : {v : ℕ} → (v == 0) ≡ false → 0 < v
    positive h = ground (arith, h)

    by_leading :
        (dn.digits ≡ 1) ⊎ (10 ^ dn.digits ≤ 10 * value dn.lsu)
        → 0 < value dn.lsu
        → 10 ^ dn.digits ≤ 10 * value dn.lsu
    by_leading (inl e) h = rw e (omega (arith, h))
    by_leading (inr l) h = l

mul_mono : (a b t : ℕ) → a ≤ b → a * t ≤ b * t
mul_mono a b t h = grind arith

scaled : (a v t : ℕ) → a ≤ 10 * v → a * t ≤ 10 * (v * t)
scaled a v t h = omega (arith, mul_mono a (10 * v) t h, regroup v t)
  where
    regroup : (v t : ℕ) → 10 * v * t ≡ 10 * (v * t)
    regroup v t = grind arith

-- A shifted operand that would hide the other one makes the sum too long for the precision.
pub not_hidden :
    (low high : DecNumber) (padding p : ℕ) (n d : Bool)
    → IsFinite low
    → IsFinite high
    → is_zero high ≡ false
    → pos_part (signed_sum n d (value low.lsu) (value high.lsu * 10 ^ padding))
        + neg_part (signed_sum n d (value low.lsu) (value high.lsu * 10 ^ padding))
      < 10 ^ p
    → high.digits + padding ≤ low.digits + p + 1
not_hidden low high padding p n d fl fh nz small =
    elim (dec_lt (low.digits + p + 1) (high.digits + padding)) [
      | no near ↦ omega (arith, near)
      | yes far ↦ absurd (
          omega (
            arith,
            small,
            signed_sum_large n d (value low.lsu) (value high.lsu * 10 ^ padding) (10 ^ p) (
                dominates (10 ^ low.digits) (10 ^ p) (value low.lsu) (value high.lsu * 10 ^ padding)
                  (one-le-pow low.digits 10 (omega arith)) (one-le-pow p 10 (omega arith))
                  fl.coefficient.fits (long far)),
          ))
    ]
  where
    two_more : (l p : ℕ) → 10 ^ suc (l + p + 1) ≡ 100 * (10 ^ l * 10 ^ p)
    two_more l p =
        rw (plus_one (l + p))
          (omega (arith, pow-suc 10 (suc (l + p)), pow-suc 10 (l + p), ten-add l p))
      where
        plus_one : (n : ℕ) → n + 1 ≡ suc n
        plus_one n = omega arith

    long :
        low.digits + p + 1 < high.digits + padding
        → 100 * (10 ^ low.digits * 10 ^ p) ≤ 10 * (value high.lsu * 10 ^ padding)
    long far = omega (
      arith,
      pow-le-pow_right {n = 10} (omega arith) far,
      scaled (10 ^ high.digits) (value high.lsu) (10 ^ padding) (reaches high fh nz),
      two_more low.digits p,
      ten-add high.digits padding,
    )

    at_least : (l q : ℕ) → 1 ≤ l → 1 ≤ q → (l ≤ l * q) × (q ≤ l * q)
    at_least l q h k = (grind arith, grind arith)

    dominates : (l q v w : ℕ) → 1 ≤ l → 1 ≤ q → v < l → 100 * (l * q) ≤ 10 * w → v + q ≤ w
    dominates l q v w hl hq hv h = let m = at_least l q hl hq in omega (arith, m, h, hv)
