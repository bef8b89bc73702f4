-- ===== src/Arith/Add/Zero.antt =====
-- src/decNumber.c: decAddOp where an operand is special or 0, or too small to matter.
use cpp_decimal.Base.{ℕ, Bool, true, false}
use cpp_decimal.Base.{bit_and, bit_or, bit_xor, has, if◌then◌else◌, ◌&&◌, not, some}
use cpp_decimal.Base.Int.{ℤ, pos, negsuc, pos_part, neg, ◌+ℤ◌, ◌-ℤ◌, ltb_ℤ}
use cpp_decimal.Context.{DecContext, Rounding, invalid_operation, rounded}
use cpp_decimal.Number.{
  DecNumber, inf_bit, is_infinite, is_zero, nan_bit, neg_bit, snan_bit, zero_number,
}
use cpp_decimal.Number.Nan.{propagate_nans}
use cpp_decimal.Round.Coeff.{copy_fit}
use cpp_decimal.Round.Finalize.{finish, lengthen}
use cpp_decimal.Round.Overflow.{Settled}

-- Infinities and NaNs. Where the operation is invalid `res` is left as it was.
pub add_special : DecNumber → DecNumber → DecNumber → DecContext → ℕ → Bool → ℕ → Settled
add_special res lhs rhs set negate diffsign status =
    if has (bit_or lhs.bits rhs.bits) (bit_or snan_bit nan_bit)
    then propagate_nans lhs (some rhs) set status
    else if is_infinite lhs && is_infinite rhs && diffsign
    then record { number = res; status = bit_or status invalid_operation }
    else (let bits = if is_infinite lhs then lhs.bits else bit_xor rhs.bits negate in
        record {
          number = record zero_number { bits = bit_or (bit_and bits neg_bit) inf_bit };
          status = status;
        })

-- The exponent goes down to that of a zero, `adjust` below, as far as the precision has room for
-- the zeros.
pub pad_result : DecNumber → ℤ → DecContext → ℕ → Settled
pad_result dn adjust set status =
    if ltb_ℤ adjust (pos 0)
    then (let long = ltb_ℤ set.digits (pos dn.digits -ℤ adjust) in
        let adjust' = if long then pos dn.digits -ℤ set.digits else adjust in
        record {
          number = record (lengthen dn (pos_part (neg adjust'))) {
            exponent = dn.exponent +ℤ adjust';
          };
          status = if long then bit_or status rounded else status;
        })
    else record { number = dn; status = status }

-- The sign of a sum of zeros.
pub zero_sign : Rounding → Bool → ℕ → ℕ
zero_sign Rounding.floor true bits = neg_bit
zero_sign round true bits = 0
zero_sign round false bits = bits

-- The left operand is 0.
pub add_to_zero : Bool → DecNumber → DecNumber → DecContext → ℕ → Bool → ℕ → Settled
add_to_zero allocated lhs rhs set negate diffsign status =
    let fit = copy_fit rhs rhs set (pos 0) status in
    let flipped = record fit.number { bits = bit_xor fit.number.bits negate } in
    let adjust = lhs.exponent -ℤ flipped.exponent in
    let padded =
      if not set.extended
      then record { number = flipped; status = fit.status }
      else if is_zero flipped
      then record {
        number = record flipped {
          exponent = if ltb_ℤ adjust (pos 0) then lhs.exponent else flipped.exponent;
          bits = zero_sign set.round diffsign flipped.bits;
        };
        status = fit.status;
      }
      else pad_result flipped adjust set fit.status in
    finish allocated padded.number set fit.residue padded.status

-- The right operand is 0 and the left one is not.
pub add_zero : Bool → DecNumber → DecNumber → DecContext → ℕ → Settled
add_zero allocated lhs rhs set status =
    let fit = copy_fit lhs lhs set (pos 0) status in
    let padded =
      if set.extended
      then pad_result fit.number (rhs.exponent -ℤ fit.number.exponent) set fit.status
      else record { number = fit.number; status = fit.status } in
    finish allocated padded.number set fit.residue padded.status

-- The other operand is too small to matter but for rounding: `rhs` is padded to the precision, and the
-- residue says on which side the sum lies.
pub add_sufficient : Bool → DecNumber → DecContext → ℕ → Bool → ℕ → Settled
add_sufficient allocated rhs set flip diffsign status =
    let fit = copy_fit rhs rhs set (if diffsign then negsuc 0 else pos 1) status in
    let shift = set.digits -ℤ pos rhs.digits in
    let padded =
      if ltb_ℤ (pos 0) shift
      then record (lengthen fit.number (pos_part shift)) { exponent = fit.number.exponent -ℤ shift }
      else fit.number in
    finish allocated (record padded { bits = bit_xor padded.bits flip }) set fit.residue fit.status
