-- ===== src/Arith/Quantize/Quantized.antt =====
-- src/decNumber.c: what decQuantizeOp promises for quantize.
use cpp_decimal.Base.{ℕ, ◌*◌, ◌/◌, ◌%◌, ◌^◌, ◌≤◌, ◌<◌, ◌≡◌, ◌⊎◌, refl, arith, sym, ◌∙◌, inl, inr}
use cpp_decimal.Base.{Bool, true, false, some, ◌==◌, Bool-cases, ==_iff, one-le-pow}
use cpp_decimal.Base.Int.{ℤ, pos, pos_part, neg_part, ◌+ℤ◌, ◌-ℤ◌, ◌≤ℤ◌, ltb_ℤ}
use cpp_decimal.Arith.Quantize.{
  Adjusted, adjust_exponent, quantize_finite, quantize_op, requested, settle_adjusted,
}
use cpp_decimal.Arith.Quantize.Adjust.{IsAdjusted}
use cpp_decimal.Arith.Quantize.Correct.{adjust_exponent-nonzero, quantized}
use cpp_decimal.Arith.Quantize.Pad.{copied, counted}
use cpp_decimal.Context.{DecContext, Rounding}
use cpp_decimal.Number.{DecNumber, is_negative, is_zero}
use cpp_decimal.Number.Compare.Laws.{IsFinite}
use cpp_decimal.Number.Digits.Laws.{IsDigits}
use cpp_decimal.Number.Laws.{either_special, is_zero-eq}
use cpp_decimal.Round.Apply.Laws.{rounds_up-exact}
use cpp_decimal.Arith.Operand.{kept_operand}
use cpp_decimal.Round.Finalize.Laws.{finalize_keeps}
use cpp_decimal.Round.Overflow.{Settled}
use cpp_decimal.Round.Spec.{round_quotient}
use cpp_decimal.Units.{value}

-- What the operation is asked for: finite operands, a result that fits the precision `q`, with a digit that is kept,
-- and an exponent of the range.
pub record IsQuantizing (lhs rhs : DecNumber) (set : DecContext) (q : ℕ) : Type 0 where
  pub precision : set.digits ≡ pos q
  pub some_digit : 0 < q
  pub precision_max : q ≤ 999999999
  pub digits_max : lhs.digits ≤ 999999999
  pub extended : set.extended ≡ true
  pub left : IsFinite lhs
  pub right : IsFinite rhs
  pub kept : (is_zero lhs ≡ true) ⊎ (pos_part (rhs.exponent -ℤ lhs.exponent) < lhs.digits)
  pub fits : quantized set.round lhs rhs.exponent < 10 ^ q
  pub above : set.emin ≤ℤ rhs.exponent
  pub below : rhs.exponent ≤ℤ set.emax -ℤ set.digits

-- The operand, at the exponent `e`.
pub record IsQuantized (n : ℕ) (e : ℤ) (b : ℕ) (r : Settled) : Type 0 where
  pub total : value r.number.lsu ≡ n
  pub exponent : r.number.exponent ≡ e
  pub bits : r.number.bits ≡ b
  pub digits : IsDigits n r.number.digits

-- An adjusted number that the context holds is settled as it is.
settle_adjusted-IsQuantized :
    (a : Adjusted) (set : DecContext) (n q : ℕ) (e : ℤ) (b : ℕ)
    → IsAdjusted n q e b a
    → set.digits ≡ pos q
    → set.emin ≤ℤ e
    → e ≤ℤ set.emax -ℤ set.digits
    → IsQuantized n e b (settle_adjusted true a set)
unfolding settle_adjusted
settle_adjusted-IsQuantized a set n q e b h prec lo hi =
    rw
      (
        h.kept,
        fits a.number.exponent set.emax a.number.digits q (rw h.exponent (rw prec at hi)) h.short,
        finalize_keeps a.number set a.status
            (rw h.exponent (low set.emin e a.number.digits lo h.some_digit))
            (rw h.exponent (high e (set.emax -ℤ set.digits) hi)),
      )
      (record { total = h.total; exponent = h.exponent; bits = h.bits; digits = h.digits })
  where
    fits : (x m : ℤ) (d q : ℕ) → x ≤ℤ m -ℤ pos q → d ≤ q → ltb_ℤ (m -ℤ pos d +ℤ pos 1) x ≡ false
    fits x m d q h k = ground (arith, h, k)

    low : (m e : ℤ) (d : ℕ) → m ≤ℤ e → 0 < d → m -ℤ pos d +ℤ pos 1 ≤ℤ e
    low m e d h k = ground (arith, h, k)

    high : (e m : ℤ) → e ≤ℤ m → e ≤ℤ m +ℤ pos 1
    high e m h = ground (arith, h)

round_quotient-zero :
    (mode : Rounding) (negative : Bool) (p : ℕ) → 0 < p → round_quotient mode negative 0 p ≡ 0
unfolding round_quotient
round_quotient-zero mode negative p h =
    rw (rest p h, whole p h) (rw (rounds_up-exact mode negative 0 p h) refl)
  where
    rest : (p : ℕ) → 0 < p → 0 % p ≡ 0
    rest p h = grind arith

    whole : (p : ℕ) → 0 < p → 0 / p ≡ 0
    whole p h = grind arith

zero_value : (dn : DecNumber) → IsFinite dn → is_zero dn ≡ true → value dn.lsu ≡ 0
zero_value dn f z = (==_iff _ _).0 (sym (is_zero-eq dn f.coefficient f.plain) ∙ z)

-- A zero takes the exponent.
zero-IsAdjusted :
    (res lhs : DecNumber) (set : DecContext) (reqexp : ℤ) (status q : ℕ)
    → set.extended ≡ true
    → IsFinite lhs
    → is_zero lhs ≡ true
    → 0 < q
    → IsAdjusted
        (quantized set.round lhs reqexp)
        q
        reqexp
        lhs.bits
        (adjust_exponent res lhs set reqexp status)
unfolding adjust_exponent
zero-IsAdjusted res lhs set reqexp status q ext f z h =
    let v = zero_value lhs f z in
    let total : value lhs.lsu ≡ quantized set.round lhs reqexp =
      v
      ∙ sym (
          rw v (
            rw (times (10 ^ neg_part (reqexp -ℤ lhs.exponent))) (
              round_quotient-zero set.round (is_negative lhs) _
                (one-le-pow (pos_part (reqexp -ℤ lhs.exponent)) 10 (omega arith))))) in
    rw (z, ext, copied lhs f.coefficient)
      (record {
        total = total;
        exponent = refl;
        bits = refl;
        short = omega (arith, h, one_digit lhs.digits f.coefficient.leading v);
        some_digit = f.coefficient.some_digit;
        kept = refl;
        digits = rw (sym total) (counted lhs f.coefficient);
      })
  where
    times : (p : ℕ) → 0 * p ≡ 0
    times p = omega arith

    one_digit : (d : ℕ) → (d ≡ 1) ⊎ (10 ^ d ≤ 10 * value lhs.lsu) → value lhs.lsu ≡ 0 → d ≤ 1
    one_digit d (inl e) v = omega (arith, e)
    one_digit d (inr l) v = absurd (omega (arith, l, v, one-le-pow d 10 (omega arith)))

adjust_exponent-IsAdjusted :
    (res lhs rhs : DecNumber) (set : DecContext) (status q : ℕ)
    → IsQuantizing lhs rhs set q
    → IsAdjusted
        (quantized set.round lhs rhs.exponent)
        q
        rhs.exponent
        lhs.bits
        (adjust_exponent res lhs set rhs.exponent status)
adjust_exponent-IsAdjusted res lhs rhs set status q f = elim (Bool-cases (is_zero lhs)) [
  | inl z ↦ zero-IsAdjusted res lhs set rhs.exponent status q f.extended f.left z f.some_digit
  | inr nz ↦
      adjust_exponent-nonzero res lhs set rhs.exponent (rhs.exponent -ℤ lhs.exponent) status q
        f.extended f.precision f.left.coefficient nz (positive nz) refl (left nz f.kept) f.fits
        f.precision_max f.digits_max f.below
]
  where
    positive : is_zero lhs ≡ false → 0 < value lhs.lsu
    positive nz = some_value (sym (is_zero-eq lhs f.left.coefficient f.left.plain) ∙ nz)
      where
        some_value : {v : ℕ} → (v == 0) ≡ false → 0 < v
        some_value h = ground (arith, h)

    left : {n d : ℕ} → is_zero lhs ≡ false → (is_zero lhs ≡ true) ⊎ (n < d) → n < d
    left nz (inl z) = absurd (cc (nz, z))
    left nz (inr h) = h

not_low : (x m g : ℤ) (q : ℕ) → g ≡ pos q → 0 < q → m ≤ℤ x → ltb_ℤ x (m -ℤ (g -ℤ pos 1)) ≡ false
not_low x m g q e h k = rw e (ground (arith, h, k))

not_high : (x m g : ℤ) (q : ℕ) → g ≡ pos q → x ≤ℤ m -ℤ g → ltb_ℤ m x ≡ false
not_high x m g q e k = below x m q (rw e at k)
  where
    below : (x m : ℤ) (q : ℕ) → x ≤ℤ m -ℤ pos q → ltb_ℤ m x ≡ false
    below x m q k = ground (arith, k)

quantize_finite-IsQuantized :
    (res lhs rhs : DecNumber) (set : DecContext) (status q : ℕ)
    → IsQuantizing lhs rhs set q
    → IsQuantized
        (quantized set.round lhs rhs.exponent)
        rhs.exponent
        lhs.bits
        (quantize_finite true res lhs (some rhs.exponent) set status)
unfolding quantize_finite
quantize_finite-IsQuantized res lhs rhs set status q f = moved in_range (
    settle_adjusted-IsQuantized _ set _ q rhs.exponent lhs.bits
      (adjust_exponent-IsAdjusted res lhs rhs set status q f) f.precision f.above f.below)
  where
    in_range :
        quantize_finite true res lhs (some rhs.exponent) set status
        ≡ settle_adjusted true (adjust_exponent res lhs set rhs.exponent status) set
    in_range = simp f.extended (
        rw
          (
            not_low rhs.exponent set.emin set.digits q f.precision f.some_digit f.above,
            not_high rhs.exponent set.emax set.digits q f.precision f.below,
          )
          refl)

    moved : {r r' : Settled} {n b : ℕ} {e : ℤ} → r' ≡ r → IsQuantized n e b r → IsQuantized n e b r'
    moved e h = rw e h

quantize_op-finite :
    (res lhs rhs : DecNumber) (set : DecContext) (status : ℕ)
    → set.extended ≡ true
    → IsFinite lhs
    → IsFinite rhs
    → quantize_op true res lhs rhs set true status
      ≡ quantize_finite true res lhs (some rhs.exponent) set status
unfolding quantize_op requested
quantize_op-finite res lhs rhs set status ext l r =
    rw
      (
        quantize_op,
        kept_operand lhs set status ext,
        kept_operand rhs set status ext,
        either_special lhs.bits rhs.bits l.plain r.plain,
      )
      refl

-- decQuantizeOp for quantize, with storage and for extended arithmetic, on two finite numbers. The exponent of the
-- second is to be from emin to emax less the precision; the first, rounded by the context's mode to that exponent,
-- is to have at most the precision's digits; and it is 0, or at least one of its digits is left of the
-- rounding place. The precision and the first operand have at most 999999999 digits. Then the result has
-- that exponent, that coefficient, counted without leading zeros, and the bits of the first operand.
pub quantize_op-IsQuantized :
    (res lhs rhs : DecNumber) (set : DecContext) (status q : ℕ)
    → IsQuantizing lhs rhs set q
    → IsQuantized
        (quantized set.round lhs rhs.exponent)
        rhs.exponent
        lhs.bits
        (quantize_op true res lhs rhs set true status)
quantize_op-IsQuantized res lhs rhs set status q f =
    rw (quantize_op-finite res lhs rhs set status f.extended f.left f.right)
      (quantize_finite-IsQuantized res lhs rhs set status q f)
