-- ===== src/Arith/Quantize.antt =====
-- src/decNumber.c: decQuantizeOp, which forces an exponent.
pub mod Adjust
pub mod Pad
pub mod Correct
pub mod Quantized
use cpp_decimal.Base.{
  ℕ, Bool, true, false, Option, none, some, bit_and, bit_or, bit_xor, complement32, has,
}
use cpp_decimal.Base.{if◌then◌else◌, not, ◌&&◌, ◌||◌}
use cpp_decimal.Base.Int.{ℤ, pos, pos_part, neg_part, ◌+ℤ◌, ◌-ℤ◌, ltb_ℤ, leb_ℤ, eqb_ℤ, wrap_int}
use cpp_decimal.Arith.Operand.{reduce_operand}
use cpp_decimal.Context.{
  DecContext, inexact, insufficient_storage, invalid_operation, rounded, underflow,
}
use cpp_decimal.Number.{DecNumber, inf_bit, is_zero, nan_bit, snan_bit, special_bits}
use cpp_decimal.Number.GetInt.{IntRead, get_int}
use cpp_decimal.Number.Nan.{Reported, deliver, propagate_nans}
use cpp_decimal.Number.Sign.{copy}
use cpp_decimal.Round.Apply.{apply_round}
use cpp_decimal.Round.Coeff.{copy_fit}
use cpp_decimal.Round.Finalize.{etiny, finalize, lengthen}
use cpp_decimal.Round.Overflow.{Settled}

-- NaNs and infinities. Where the operation is invalid `res` is left as it was.
pub quantize_special : DecNumber → DecNumber → DecNumber → DecContext → ℕ → Settled
quantize_special res lhs rhs set status =
    if has (bit_or lhs.bits rhs.bits) (bit_or snan_bit nan_bit)
    then propagate_nans lhs (some rhs) set status
    else if has (bit_xor lhs.bits rhs.bits) inf_bit
    then record { number = res; status = bit_or status invalid_operation }
    else record { number = copy lhs; status = status }

-- The exponent that is asked for: that of the operand, or its value. `none` is BADINT, BIGODD or BIGEVEN.
pub requested : Bool → DecNumber → Option ℤ
requested quant rhs = if quant then some rhs.exponent else (elim (get_int rhs) [
  | IntRead.bad_int ↦ none
  | IntRead.big_odd ↦ none
  | IntRead.big_even ↦ none
  | IntRead.int n ↦ some n
])

-- Zeros have no sign under subset arithmetic.
pub drop_sign : DecContext → DecNumber → DecNumber
drop_sign set dn = if is_zero dn && not set.extended then record dn { bits = 0 } else dn

-- A result on its way, and whether it has failed to fit.
pub record Adjusted : Type 0 where
  pub number : DecNumber
  pub status : ℕ
  pub failed : Bool

abbrev unfit : DecNumber → ℕ → Adjusted
unfit dn status = record { number = dn; status = bit_or status invalid_operation; failed = true }

-- After a carry the exponent is off by one, and it is put back where there is space.
pub put_back : DecContext → ℤ → Settled → Adjusted
put_back set reqexp r =
    if ltb_ℤ reqexp r.number.exponent
    then (if eqb_ℤ (pos r.number.digits) set.digits
        then unfit r.number (bit_and r.status (complement32 (bit_or inexact rounded)))
        else record {
          number =
              drop_sign set
                (record (lengthen r.number 1) { exponent = r.number.exponent -ℤ pos 1 });
          status = r.status;
          failed = false;
        })
    else record { number = drop_sign set r.number; status = r.status; failed = false }

-- The exponent goes up by `adjust`: digits are rounded off.
pub round_off : DecNumber → DecNumber → DecContext → ℤ → ℤ → ℕ → Adjusted
round_off res lhs set reqexp adjust status =
    let workset = record set { digits = pos lhs.digits -ℤ adjust } in
    let fit = copy_fit res lhs workset (pos 0) status in
    put_back set reqexp (apply_round fit.number workset fit.residue fit.status)

-- The exponent goes down, or stays: zeros are added.
pub pad_out : DecNumber → ℤ → ℕ → Adjusted
pad_out lhs adjust status = record {
  number =
      if ltb_ℤ adjust (pos 0)
      then record (lengthen (copy lhs) (neg_part adjust)) { exponent = lhs.exponent +ℤ adjust }
      else copy lhs;
  status = status;
  failed = false;
}

-- The exponent is forced. The adjustment is an Int, and so is the count of digits that it leaves.
pub adjust_exponent : DecNumber → DecNumber → DecContext → ℤ → ℕ → Adjusted
adjust_exponent res lhs set reqexp status =
    if is_zero lhs
    then record {
      number = record (copy lhs) { exponent = reqexp; bits = if set.extended then lhs.bits else 0 };
      status = status;
      failed = false;
    }
    else (let adjust = wrap_int (reqexp -ℤ lhs.exponent) in
        if ltb_ℤ set.digits (wrap_int (pos lhs.digits -ℤ adjust))
        then unfit res status
        else if ltb_ℤ (pos 0) adjust
        then round_off res lhs set reqexp adjust status
        else pad_out lhs adjust status)

-- The test for overflow, and the flags of a subnormal result; no underflow is reported.
pub settle_adjusted : Bool → Adjusted → DecContext → Settled
settle_adjusted allocated a set =
    if a.failed
    then record { number = a.number; status = a.status }
    else if ltb_ℤ (set.emax -ℤ pos a.number.digits +ℤ pos 1) a.number.exponent
    then record { number = a.number; status = bit_or a.status invalid_operation }
    else (let r = finalize allocated a.number set (pos 0) a.status in
        record { number = r.number; status = bit_and r.status (complement32 underflow) })

-- Finite operands.
pub quantize_finite : Bool → DecNumber → DecNumber → Option ℤ → DecContext → ℕ → Settled
quantize_finite allocated res lhs none set status = record {
  number = res;
  status = bit_or status invalid_operation;
}
quantize_finite allocated res lhs (some reqexp) set status =
    let lowest = if set.extended then etiny set else set.emin in
    if ltb_ℤ reqexp lowest || ltb_ℤ set.emax reqexp
    then record { number = res; status = bit_or status invalid_operation }
    else settle_adjusted allocated (adjust_exponent res lhs set reqexp status) set

-- decQuantizeOp: quantize, or rescale where `quant` is false. `allocated` is the answer of `malloc`.
pub quantize_op : Bool → DecNumber → DecNumber → DecNumber → DecContext → Bool → ℕ → Settled
quantize_op allocated res lhs rhs set quant status =
    let no_room : ℕ → Settled =
      λ s. record { number = res; status = bit_or s insufficient_storage } in
    elim (reduce_operand allocated lhs set status) [
      | none ↦ no_room status
      | some l ↦ elim (reduce_operand allocated rhs set l.status) [
        | none ↦ no_room l.status
        | some r ↦
            if has (bit_or l.number.bits r.number.bits) special_bits
            then quantize_special res l.number r.number set r.status
            else quantize_finite allocated res l.number (requested quant rhs) set r.status
      ]
    ]

-- decNumberQuantize
pub quantize : Bool → DecNumber → DecNumber → DecNumber → DecContext → Reported
quantize allocated res lhs rhs set =
    let s = quantize_op allocated res lhs rhs set true 0 in deliver s.number s.status set

-- decNumberRescale
pub rescale : Bool → DecNumber → DecNumber → DecNumber → DecContext → Reported
rescale allocated res lhs rhs set =
    let s = quantize_op allocated res lhs rhs set false 0 in deliver s.number s.status set
