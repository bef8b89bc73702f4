-- ===== src/Arith/Add/Rounded.antt =====
-- decAddOp on finite numbers whose exact sum is longer than the precision.
use cpp_decimal.Base.{ℕ, ◌+◌, ◌^◌, ◌≤◌, ◌<◌, ◌≡◌, inl, inr, refl, arith, ap, sym, ◌∙◌}
use cpp_decimal.Base.{
  Bool, true, false, has, ◌==◌, not, ◌&&◌, if◌then◌else◌, Bool-cases, some, Option-cases,
}
use cpp_decimal.Base.{bit_xor}
use cpp_decimal.Base.Int.{ℤ, pos, pos_part, neg_part, ◌+ℤ◌, ◌-ℤ◌, ◌≤ℤ◌, ltb_ℤ}
use cpp_decimal.Arith.Add.{add_nonzero, add_op}
use cpp_decimal.Arith.Add.Units.{add_fast}
use cpp_decimal.Arith.Add.Units.Fast.{add_fast-IsFastSum}
use cpp_decimal.Context.{Rounding, DecContext}
use cpp_decimal.Number.{DecNumber, is_negative, is_zero, neg_bit}
use cpp_decimal.Number.Compare.Laws.{IsFinite}
use cpp_decimal.Round.Overflow.{Settled}
use cpp_decimal.Units.{value}
use cpp_decimal.Arith.Add.Zero.{add_sufficient}
use cpp_decimal.Arith.Add.Units.{add_aligned}
use cpp_decimal.Arith.Add.Signs.{exact_sum, lower}
use cpp_decimal.Arith.Add.Exact.{
  add_op-nonzero, fast_sum, not_far, and_false, lower_swapped, lower_kept, kept_sum, swapped_sum,
}
use cpp_decimal.Arith.Add.Signs.{upper}
use cpp_decimal.Arith.Add.Units.Correct.{size_of, IsRoundedSum, add_aligned-IsRoundedSum}
use cpp_decimal.Arith.Add.Units.Fast.{add_fast-short}
use cpp_decimal.Base.{suc}
use native.Mathlib.Nat.{pow-le-pow_right}

-- What the operation is asked for: finite operands that are not 0 and whose digits meet, and a sum of
-- `suc d` digits more than the precision `suc p`, away from the ends of the exponent range.
pub record IsRounding (lhs rhs : DecNumber) (set : DecContext) (negate p d : ℕ) : Type 0 where
  pub precision : set.digits ≡ pos (suc p)
  pub extended : set.extended ≡ true
  pub left : IsFinite lhs
  pub right : IsFinite rhs
  pub left_nonzero : is_zero lhs ≡ false
  pub right_nonzero : is_zero rhs ≡ false
  pub near :
      (upper lhs rhs).digits + pos_part ((upper lhs rhs).exponent -ℤ (lower lhs rhs).exponent)
      ≤ (lower lhs rhs).digits + suc p + 1
  pub above : set.emin ≤ℤ (lower lhs rhs).exponent
  pub below : (lower lhs rhs).exponent +ℤ pos (suc d) +ℤ pos 1 ≤ℤ set.emax -ℤ set.digits +ℤ pos 1
  pub long :
      10 ^ (p + suc d) ≤ pos_part (exact_sum lhs rhs negate) + neg_part (exact_sum lhs rhs negate)
  pub short :
      pos_part (exact_sum lhs rhs negate) + neg_part (exact_sum lhs rhs negate)
      < 10 ^ (suc p + suc d)

restate :
    {x y : ℤ} {p d : ℕ} {mode : Rounding} {e e' : ℤ} {r r' : Settled}
    → x ≡ y
    → e ≡ e'
    → r' ≡ r
    → IsRoundedSum x p d mode e r
    → IsRoundedSum y p d mode e' r'
restate f g h s = rw (sym f, sym g, h) s

-- A fast sum is not that long.
not_fast :
    (lhs rhs dn : DecNumber) (set : DecContext) (negate p : ℕ)
    → set.digits ≡ pos p
    → IsFinite lhs
    → IsFinite rhs
    → 10 ^ p ≤ pos_part (exact_sum lhs rhs negate) + neg_part (exact_sum lhs rhs negate)
    → add_fast lhs rhs set (has (bit_xor (bit_xor lhs.bits rhs.bits) negate) neg_bit) ≡ some dn
    → ⊥
not_fast lhs rhs dn set negate p e fl fr long fast =
    let d = has (bit_xor (bit_xor lhs.bits rhs.bits) negate) neg_bit in
    let s = add_fast-IsFastSum lhs rhs set d dn fl.coefficient fr.coefficient fast in
    let total = (fast_sum lhs rhs dn negate 0 s).total in
    omega (
      arith,
      long,
      size_of (is_negative dn) (value dn.lsu) (exact_sum lhs rhs negate) total,
      s.fits,
      pow-le-pow_right {n = 10} (omega arith) (add_fast-short lhs rhs set d dn p e fast),
    )

-- The aligned operands.
aligned :
    (overlap : Bool) (res low high : DecNumber) (padding : ℕ) (set : DecContext) (bits flip : ℕ)
    (diffsign : Bool) (status p : ℕ)
    → set.digits ≡ pos p
    → high.digits + padding ≤ low.digits + p + 1
    → (if not (padding == 0)
          && ltb_ℤ (pos low.digits +ℤ set.digits +ℤ pos 1) (pos (high.digits + padding))
        then add_sufficient true high set flip diffsign status
        else add_aligned true overlap res low high padding set bits diffsign status)
      ≡ add_aligned true overlap res low high padding set bits diffsign status
aligned overlap res low high padding set bits flip diffsign status p e h =
    rw
      (and_false (not (padding == 0)) _
        (not_far low.digits (high.digits + padding) set.digits p e h))
      refl

-- decAddOp with storage, for extended arithmetic, on two finite numbers that are not 0. The exact sum, or the
-- difference where `negate` has the sign bit, is to have `suc d` digits more than the precision `suc p` in
-- units of the lower exponent; the operand of the higher exponent, padded, is to be at most `suc p` + 1 digits longer
-- than the other; the lower exponent is to be emin or more, and the exponent of the result below the clamp with
-- room for a carry. Then the result is the exact sum, rounded once by the context's mode to `suc p` digits, with
-- its sign.
pub add_op-IsRoundedSum :
    (overlap : Bool) (res lhs rhs : DecNumber) (set : DecContext) (negate status p d : ℕ)
    → IsRounding lhs rhs set negate p d
    → IsRoundedSum
        (exact_sum lhs rhs negate)
        p
        d
        set.round
        (lower lhs rhs).exponent
        (add_op true overlap res lhs rhs set negate status)
unfolding add_nonzero
add_op-IsRoundedSum overlap res lhs rhs set negate status p d f =
    let diff = has (bit_xor (bit_xor lhs.bits rhs.bits) negate) neg_bit in
    let start =
      add_op-nonzero overlap res lhs rhs set negate status f.extended f.left f.right f.left_nonzero
        f.right_nonzero in
    elim (Option-cases (add_fast lhs rhs set diff)) [
      | inr (dn, e) ↦ absurd (
          not_fast lhs rhs dn set negate (suc p) f.precision f.left f.right
            (omega (arith, f.long, longer p d)) e)
      | inl e ↦ elim (Bool-cases (ltb_ℤ rhs.exponent lhs.exponent)) [
        | inl swapped ↦
            let low = lower_swapped lhs rhs swapped in
            let x = swapped_sum lhs rhs negate low in
            restate x (ap DecNumber.exponent (sym low))
              (start
                ∙ rw (add_nonzero, e, swapped)
                    (aligned overlap res rhs lhs (pos_part (lhs.exponent -ℤ rhs.exponent)) set
                      (bit_xor rhs.bits negate) 0 diff status (suc p) f.precision
                      (rw (swapped) at f.near)))
              (add_aligned-IsRoundedSum overlap res rhs lhs
                (pos_part (lhs.exponent -ℤ rhs.exponent)) set (bit_xor rhs.bits negate) diff status
                p d f.precision f.extended f.right.coefficient f.left.coefficient
                (rw low at f.above) (rw low at f.below) (rw x f.long) (rw x f.short))
        | inr kept ↦
            let low = lower_kept lhs rhs kept in
            let x = kept_sum lhs rhs negate low in
            restate x (ap DecNumber.exponent (sym low))
              (start
                ∙ rw (add_nonzero, e, kept)
                    (aligned overlap res lhs rhs (pos_part (rhs.exponent -ℤ lhs.exponent)) set
                      lhs.bits negate diff status (suc p) f.precision (rw (kept) at f.near)))
              (add_aligned-IsRoundedSum overlap res lhs rhs
                (pos_part (rhs.exponent -ℤ lhs.exponent)) set lhs.bits diff status p d f.precision
                f.extended f.left.coefficient f.right.coefficient (rw low at f.above)
                (rw low at f.below) (rw x f.long) (rw x f.short))
      ]
    ]
  where
    longer : (k j : ℕ) → 10 ^ suc k ≤ 10 ^ (k + suc j)
    longer k j = pow-le-pow_right {n = 10} (omega arith) (omega arith)
