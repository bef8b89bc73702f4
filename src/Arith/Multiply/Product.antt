-- ===== src/Arith/Multiply/Product.antt =====
-- src/decNumber.c: what decMultiplyOp promises, with the sign of the product.
use cpp_decimal.Base.{ℕ, suc, ◌+◌, ◌*◌, ◌^◌, ◌≤◌, ◌<◌, ◌≡◌, inr, refl, arith, ap, sym, ◌∙◌, pow-suc}
use cpp_decimal.Base.{Bool, true, false, has, if◌then◌else◌, bit_and, bit_xor}
use cpp_decimal.Base.{bit_and-power, bit-bit_and, bit-lt}
use cpp_decimal.Base.Int.{pos, neg_ℕ, ◌+ℤ◌, ◌-ℤ◌, ◌*ℤ◌, ◌≤ℤ◌}
use cpp_decimal.Arith.Add.Signs.{has-bit_xor, xor}
use cpp_decimal.Arith.Multiply.{multiply_op}
use cpp_decimal.Arith.Multiply.Correct.{IsMultiplying, multiply_op-IsFinished, multiply_op-IsWhole}
use cpp_decimal.Context.{DecContext, Rounding}
use cpp_decimal.Number.{DecNumber, IsCoefficient, is_negative, neg_bit}
use cpp_decimal.Number.Int32.Laws.{signed}
use cpp_decimal.Round.Overflow.{Settled}
use cpp_decimal.Round.Settle.{IsScaled-at}
use cpp_decimal.Round.Spec.{IsScaled, round_quotient}
use cpp_decimal.Units.{value}

-- The sign of the product.
negative_product :
    (a b : ℕ) → has (bit_and (bit_xor a b) neg_bit) neg_bit ≡ xor (has a neg_bit) (has b neg_bit)
negative_product a b = masked (bit_xor a b) ∙ has-bit_xor a b
  where
    masked : (a : ℕ) → has (bit_and a neg_bit) neg_bit ≡ has a neg_bit
    masked a = ground (
      arith,
      bit_and-power 7 (bit_and a neg_bit),
      bit-bit_and 7 a neg_bit,
      bit_and-power 7 a,
      bit-lt 7 a,
    )

signed_product :
    (a b : Bool) (v w : ℕ)
    → (if xor a b then neg_ℕ (v * w) else pos (v * w))
      ≡ (if a then neg_ℕ v else pos v) *ℤ (if b then neg_ℕ w else pos w)
signed_product true true v w = ground arith
signed_product true false v w = ground arith
signed_product false true v w = ground arith
signed_product false false v w = ground arith

-- The product of the values, at the sum of the exponents, and no flag more.
pub record IsExactProduct (lhs rhs : DecNumber) (flags : ℕ) (r : Settled) : Type 0 where
  pub total : signed r.number ≡ signed lhs *ℤ signed rhs
  pub negative : is_negative r.number ≡ xor (is_negative lhs) (is_negative rhs)
  pub coefficient : IsCoefficient r.number.digits r.number.lsu
  pub exponent : r.number.exponent ≡ lhs.exponent +ℤ rhs.exponent
  pub status : r.status ≡ flags

-- decMultiplyOp with storage, for extended arithmetic, on two finite numbers whose product, with all of its
-- digits, is within the precision and whose exponents add up to one that is emin or more and below the clamp, where
-- the exponent range of the context is within 999999999 either way: the result is the exact product, its exponent
-- is the sum of the exponents, its sign, that of a zero included, is negative when just one of the operands is, its
-- coefficient is well formed, and no flag is added.
pub multiply_op-IsExactProduct :
    (res lhs rhs : DecNumber) (set : DecContext) (status p : ℕ)
    → IsMultiplying lhs rhs set p
    → value lhs.lsu * value rhs.lsu < 10 ^ p
    → IsExactProduct lhs rhs status (multiply_op true res lhs rhs set status)
multiply_op-IsExactProduct res lhs rhs set status p f small =
    let w = multiply_op-IsWhole res lhs rhs set status p f small in
    let negative = ap (λ b. has b neg_bit) w.bits ∙ negative_product lhs.bits rhs.bits in
    record {
      total =
          simp (negative, w.total)
            (signed_product (is_negative lhs) (is_negative rhs) (value lhs.lsu) (value rhs.lsu));
      negative = negative;
      coefficient = w.coefficient;
      exponent = w.exponent;
      status = w.status;
    }

-- The product of the values in units of the sum of the exponents, cut by `suc d` digits.
pub record IsRoundedProduct (lhs rhs : DecNumber) (p d : ℕ) (mode : Rounding) (r : Settled)
    : Type 0 where
  pub scaled :
      IsScaled
        (round_quotient mode
          (xor (is_negative lhs) (is_negative rhs))
          (value lhs.lsu * value rhs.lsu)
          (10 ^ suc d))
        (suc p)
        (lhs.exponent +ℤ rhs.exponent +ℤ pos (suc d))
        r.number.bits
        r.number
  pub negative : is_negative r.number ≡ xor (is_negative lhs) (is_negative rhs)

-- decMultiplyOp with storage, for extended arithmetic, on two finite numbers whose product has `suc d` digits more
-- than the precision `suc p`, where the exponents add up to one that is emin or more and, with room for the digits
-- that are cut and a carry, below the clamp, and the exponent range of the context is within 999999999 either way:
-- the result is the exact product, rounded once by the context's mode to `suc p` digits, and it is negative when
-- just one of the operands is.
pub multiply_op-IsRoundedProduct :
    (res lhs rhs : DecNumber) (set : DecContext) (status p d : ℕ)
    → IsMultiplying lhs rhs set (suc p)
    → 10 ^ (p + suc d) ≤ value lhs.lsu * value rhs.lsu
    → value lhs.lsu * value rhs.lsu < 10 ^ (suc p + suc d)
    → lhs.exponent +ℤ rhs.exponent +ℤ pos (suc d) +ℤ pos 1 ≤ℤ set.emax -ℤ set.digits +ℤ pos 1
    → IsRoundedProduct lhs rhs p d set.round (multiply_op true res lhs rhs set status)
multiply_op-IsRoundedProduct res lhs rhs set status p d f long short hi =
    let w =
      multiply_op-IsFinished res lhs rhs set status p d f
        (record {
          some_digit = omega arith;
          fits = short;
          leading = inr (omega (arith, long, ten_more p (suc d)));
        })
        hi in
    let bits = w.scaled.bits in
    let product = negative_product lhs.bits rhs.bits in
    record {
      scaled =
          IsScaled-at
            (ap (λ n. round_quotient set.round n (value lhs.lsu * value rhs.lsu) (10 ^ suc d))
              product)
            refl (sym bits) w.scaled;
      negative = ap (λ b. has b neg_bit) bits ∙ product;
    }
  where
    ten_more : (k j : ℕ) → 10 ^ (suc k + j) ≡ 10 * 10 ^ (k + j)
    ten_more k j = rw (plus_one k j) (omega (arith, pow-suc 10 (k + j)))
      where
        plus_one : (k j : ℕ) → suc k + j ≡ suc (k + j)
        plus_one k j = omega arith
