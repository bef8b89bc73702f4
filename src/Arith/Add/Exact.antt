-- ===== src/Arith/Add/Exact.antt =====
-- decAddOp on finite numbers whose exact sum fits the precision.
use cpp_decimal.Base.{ℕ, ◌+◌, ◌*◌, ◌^◌, ◌≤◌, ◌<◌, ◌≡◌, inl, inr, refl, arith, ap, sym, ◌∙◌}
use cpp_decimal.Base.{
  Bool, true, false, has, ◌==◌, not, ◌&&◌, if◌then◌else◌, length, Bool-cases, some, Option-cases,
}
use cpp_decimal.Base.{bit_xor}
use cpp_decimal.Base.Int.{ℤ, pos, pos_part, neg_part, ◌+ℤ◌, ◌-ℤ◌, ◌≤ℤ◌, ltb_ℤ}
use cpp_decimal.Arith.Add.{add_nonzero, add_operands, add_op}
use cpp_decimal.Arith.Add.Units.{add_fast}
use cpp_decimal.Arith.Add.Units.Exact.{IsExactSum, add_aligned-IsExactSum}
use cpp_decimal.Arith.Add.Units.Fast.{IsFastSum, add_fast-IsFastSum}
use cpp_decimal.Arith.Add.Units.Sum.{signed_sum}
use cpp_decimal.Context.{DecContext}
use cpp_decimal.Number.{DecNumber, is_negative, is_zero, neg_bit}
use cpp_decimal.Number.Compare.Laws.{IsFinite, no_shift}
use cpp_decimal.Number.Laws.{either_special}
use cpp_decimal.Round.Overflow.{Settled}
use cpp_decimal.Units.{value, d2u-eq}
use cpp_decimal.Arith.Add.Zero.{add_sufficient}
use cpp_decimal.Arith.Add.Units.{add_aligned}
use cpp_decimal.Arith.Add.Signs.{
  exact_sum, lower, digits_at, xor, has-bit_xor, left_first, right_first, not_hidden,
}
use cpp_decimal.Arith.Operand.{reduce_operand}

-- What the operation is asked for: finite operands that are not 0, and a sum that fits.
pub record IsFitting (lhs rhs : DecNumber) (set : DecContext) (negate p : ℕ) : Type 0 where
  pub precision : set.digits ≡ pos p
  pub some_digit : 0 < p
  pub extended : set.extended ≡ true
  pub left : IsFinite lhs
  pub right : IsFinite rhs
  pub left_nonzero : is_zero lhs ≡ false
  pub right_nonzero : is_zero rhs ≡ false
  pub above : set.emin ≤ℤ (lower lhs rhs).exponent
  pub below : (lower lhs rhs).exponent ≤ℤ set.emax -ℤ set.digits +ℤ pos 1
  pub fits : pos_part (exact_sum lhs rhs negate) + neg_part (exact_sum lhs rhs negate) < 10 ^ p

some_units : (dn : DecNumber) → IsFinite dn → 1 ≤ length dn.lsu
some_units dn f =
    omega (arith, f.coefficient.same_length, f.coefficient.some_digit, d2u-eq dn.digits)

pub and_false : (a b : Bool) → b ≡ false → (a && b) ≡ false
and_false true b h = h
and_false false b h = refl

within : (l h p : ℕ) → h ≤ l + p + 1 → ltb_ℤ (pos l +ℤ pos p +ℤ pos 1) (pos h) ≡ false
within l h p k = ground arith

pub not_far :
    (l h : ℕ) (x : ℤ) (p : ℕ)
    → x ≡ pos p
    → h ≤ l + p + 1
    → ltb_ℤ (pos l +ℤ x +ℤ pos 1) (pos h) ≡ false
not_far l h x p e k = rw e (within l h p k)

-- The slow path, with the operands in their order.
slow_path :
    (overlap : Bool) (res low high : DecNumber) (padding : ℕ) (set : DecContext) (bits flip : ℕ)
    (d : Bool) (status p : ℕ)
    → set.digits ≡ pos p
    → 0 < p
    → set.extended ≡ true
    → IsFinite low
    → IsFinite high
    → is_zero high ≡ false
    → set.emin ≤ℤ low.exponent
    → low.exponent ≤ℤ set.emax -ℤ set.digits +ℤ pos 1
    → let x = signed_sum (has bits neg_bit) d (value low.lsu) (value high.lsu * 10 ^ padding) in
      pos_part x + neg_part x < 10 ^ p
      → IsExactSum x low status (
          if not (padding == 0)
            && ltb_ℤ (pos low.digits +ℤ set.digits +ℤ pos 1) (pos (high.digits + padding))
          then add_sufficient true high set flip d status
          else add_aligned true overlap res low high padding set bits d status)
slow_path overlap res low high padding set bits flip d status p e hp ext fl fh nz lo hi small =
    rw
      (and_false (not (padding == 0)) _ (
        not_far _ _ set.digits p e
          (not_hidden low high padding p (has bits neg_bit) d fl fh nz small)))
      (add_aligned-IsExactSum overlap res low high padding set bits d status p e hp ext
        fl.coefficient.units fh.coefficient.units (some_units low fl) lo hi small)

pub lower_swapped :
    (lhs rhs : DecNumber) → ltb_ℤ rhs.exponent lhs.exponent ≡ true → lower lhs rhs ≡ rhs
lower_swapped lhs rhs h = rw h refl

pub lower_kept :
    (lhs rhs : DecNumber) → ltb_ℤ rhs.exponent lhs.exponent ≡ false → lower lhs rhs ≡ lhs
lower_kept lhs rhs h = rw h refl

diffsign_of :
    (a b c : ℕ)
    → has (bit_xor (bit_xor a b) c) neg_bit
      ≡ xor (xor (has a neg_bit) (has b neg_bit)) (has c neg_bit)
diffsign_of a b c = rw (has-bit_xor (bit_xor a b) c, has-bit_xor a b) refl

pub kept_sum :
    (lhs rhs : DecNumber) (negate : ℕ)
    → lower lhs rhs ≡ lhs
    → signed_sum
        (has lhs.bits neg_bit)
        (has (bit_xor (bit_xor lhs.bits rhs.bits) negate) neg_bit)
        (value lhs.lsu)
        (digits_at rhs lhs.exponent)
      ≡ exact_sum lhs rhs negate
kept_sum lhs rhs negate h =
    rw (h, diffsign_of lhs.bits rhs.bits negate, no_shift (value lhs.lsu) lhs.exponent)
      (left_first (is_negative lhs) (is_negative rhs) (has negate neg_bit) (value lhs.lsu)
        (digits_at rhs lhs.exponent))

pub swapped_sum :
    (lhs rhs : DecNumber) (negate : ℕ)
    → lower lhs rhs ≡ rhs
    → signed_sum
        (has (bit_xor rhs.bits negate) neg_bit)
        (has (bit_xor (bit_xor lhs.bits rhs.bits) negate) neg_bit)
        (value rhs.lsu)
        (digits_at lhs rhs.exponent)
      ≡ exact_sum lhs rhs negate
swapped_sum lhs rhs negate h =
    rw
      (
        h,
        diffsign_of lhs.bits rhs.bits negate,
        has-bit_xor rhs.bits negate,
        no_shift (value rhs.lsu) rhs.exponent,
      )
      (right_first (is_negative lhs) (is_negative rhs) (has negate neg_bit)
        (digits_at lhs rhs.exponent) (value rhs.lsu))

-- The two orders of the operands.
restate :
    {x y : ℤ} {low low' : DecNumber} {status : ℕ} {r : Settled}
    → x ≡ y
    → low'.exponent ≡ low.exponent
    → IsExactSum x low status r
    → IsExactSum y low' status r
restate e l s = record {
  total = s.total ∙ e;
  coefficient = s.coefficient;
  exponent = s.exponent ∙ sym l;
  status = s.status;
}

moved :
    {x : ℤ} {low : DecNumber} {status : ℕ} {r r' : Settled}
    → IsExactSum x low status r
    → r' ≡ r
    → IsExactSum x low status r'
moved s e = rw e s

pub fast_sum :
    (lhs rhs dn : DecNumber) (negate status : ℕ)
    → IsFastSum lhs rhs (has (bit_xor (bit_xor lhs.bits rhs.bits) negate) neg_bit) dn
    → IsExactSum
        (exact_sum lhs rhs negate)
        (lower lhs rhs)
        status
        (record { number = dn; status = status })
fast_sum lhs rhs dn negate status s =
    let low = lower_kept lhs rhs (rw s.aligned (irreflexive lhs.exponent)) in
    let x = kept_sum lhs rhs negate low in
    let unshifted : digits_at rhs lhs.exponent ≡ value rhs.lsu =
      rw s.aligned (no_shift (value rhs.lsu) lhs.exponent) in
    let d = has (bit_xor (bit_xor lhs.bits rhs.bits) negate) neg_bit in
    restate {low = lhs} x (ap DecNumber.exponent low) (record {
      total = s.total ∙ sym (ap (λ b. signed_sum (is_negative lhs) d (value lhs.lsu) b) unshifted);
      coefficient = s.coefficient;
      exponent = s.exponent;
      status = refl;
    })
  where
    irreflexive : (x : ℤ) → ltb_ℤ x x ≡ false
    irreflexive x = ground arith

add_nonzero-IsExactSum :
    (overlap : Bool) (res lhs rhs : DecNumber) (set : DecContext) (negate status p : ℕ)
    → IsFitting lhs rhs set negate p
    → IsExactSum (exact_sum lhs rhs negate) (lower lhs rhs) status (
        add_nonzero true overlap res lhs rhs set negate
          (has (bit_xor (bit_xor lhs.bits rhs.bits) negate) neg_bit)
          status)
unfolding add_nonzero
add_nonzero-IsExactSum overlap res lhs rhs set negate status p f =
    let d = has (bit_xor (bit_xor lhs.bits rhs.bits) negate) neg_bit in
    elim (Option-cases (add_fast lhs rhs set d)) [
      | inr (dn, e) ↦
          rw (add_nonzero, e)
            (fast_sum lhs rhs dn negate status
              (add_fast-IsFastSum lhs rhs set d dn f.left.coefficient f.right.coefficient e))
      | inl e ↦ elim (Bool-cases (ltb_ℤ rhs.exponent lhs.exponent)) [
        | inl swapped ↦
            let low = lower_swapped lhs rhs swapped in
            let x = swapped_sum lhs rhs negate low in
            moved
              (restate x (ap DecNumber.exponent low) (
                slow_path overlap res rhs lhs (pos_part (lhs.exponent -ℤ rhs.exponent)) set
                  (bit_xor rhs.bits negate) 0 d status p f.precision f.some_digit f.extended f.right
                  f.left f.left_nonzero (rw low at f.above) (rw low at f.below) (rw x f.fits)))
              (rw (add_nonzero, e, swapped) refl)
        | inr kept ↦
            let low = lower_kept lhs rhs kept in
            let x = kept_sum lhs rhs negate low in
            moved
              (restate x (ap DecNumber.exponent low) (
                slow_path overlap res lhs rhs (pos_part (rhs.exponent -ℤ lhs.exponent)) set lhs.bits
                  negate d status p f.precision f.some_digit f.extended f.left f.right
                  f.right_nonzero (rw low at f.above) (rw low at f.below) (rw x f.fits)))
              (rw (add_nonzero, e, kept) refl)
      ]
    ]

-- Two finite numbers that are not 0 need no rounding of the operands.
pub add_op-nonzero :
    (overlap : Bool) (res lhs rhs : DecNumber) (set : DecContext) (negate status : ℕ)
    → set.extended ≡ true
    → IsFinite lhs
    → IsFinite rhs
    → is_zero lhs ≡ false
    → is_zero rhs ≡ false
    → add_op true overlap res lhs rhs set negate status
      ≡ add_nonzero true overlap res lhs rhs set negate
          (has (bit_xor (bit_xor lhs.bits rhs.bits) negate) neg_bit)
          status
unfolding add_op add_operands reduce_operand
add_op-nonzero overlap res lhs rhs set negate status ext fl fr zl zr =
    taken (reduced lhs) (reduced rhs)
      (rw (either_special lhs.bits rhs.bits fl.plain fr.plain, zl, zr) refl)
  where
    reduced :
        (dn : DecNumber)
        → reduce_operand true dn set status ≡ some (record { number = dn; status = status })
    reduced dn = simp ext refl

    taken :
        {r : Settled}
        → reduce_operand true lhs set status ≡ some (record { number = lhs; status = status })
        → reduce_operand true rhs set status ≡ some (record { number = rhs; status = status })
        → add_operands true overlap res lhs rhs set negate status ≡ r
        → add_op true overlap res lhs rhs set negate status ≡ r
    taken a b c = rw (add_op, a, b) c

-- decAddOp with storage, for extended arithmetic. The sum of two finite numbers that are not 0, or their
-- difference where `negate` has the sign bit, is exact when it has at most `p` digits, `p` the precision, in
-- units of the lower exponent, and that exponent is from emin to emax - p + 1. Then the result has its
-- value at the lower exponent, its coefficient is valid, and no status bit is added.
pub add_op-IsExactSum :
    (overlap : Bool) (res lhs rhs : DecNumber) (set : DecContext) (negate status p : ℕ)
    → IsFitting lhs rhs set negate p
    → IsExactSum
        (exact_sum lhs rhs negate)
        (lower lhs rhs)
        status
        (add_op true overlap res lhs rhs set negate status)
add_op-IsExactSum overlap res lhs rhs set negate status p f =
    moved (add_nonzero-IsExactSum overlap res lhs rhs set negate status p f) (
      add_op-nonzero overlap res lhs rhs set negate status f.extended f.left f.right f.left_nonzero
        f.right_nonzero)
