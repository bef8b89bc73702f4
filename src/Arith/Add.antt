-- ===== src/Arith/Add.antt =====
-- src/decNumber.c: decAddOp, addition and subtraction, and the operators on it.
pub mod Zero
pub mod Units
pub mod Signs
pub mod Exact
pub mod Operators
pub mod Rounded
use cpp_decimal.Base.{ℕ, suc, zero, ◌+◌, ◌-◌, ◌*◌, Bool, true, false, List, [], ◌∷◌, ◌++◌, length}
use cpp_decimal.Base.{
  bit_and, bit_or, bit_xor, has, ltb, leb, ◌==◌, if◌then◌else◌, ◌&&◌, ◌||◌, not, Option, none, some,
}
use cpp_decimal.Base.Int.{ℤ, pos, negsuc, pos_part, neg_ℕ, neg, ◌+ℤ◌, ◌-ℤ◌, ltb_ℤ, leb_ℤ, eqb_ℤ}
use cpp_decimal.Arith.Operand.{reduce_operand}
use cpp_decimal.Context.{DecContext, Rounding, insufficient_storage, invalid_operation, rounded}
use cpp_decimal.Number.{
  DecNumber, first_unit, inf_bit, is_infinite, is_zero, nan_bit, neg_bit, snan_bit, special_bits,
  zero_number,
}
use cpp_decimal.Number.Digits.{get_digits, recount}
use cpp_decimal.Number.Nan.{Reported, deliver, propagate_nans}
use cpp_decimal.Number.Sign.{copy}
use cpp_decimal.Round.Apply.{apply_round}
use cpp_decimal.Round.Coeff.{Pending, copy_fit, set_coeff}
use cpp_decimal.Round.Finalize.{finish, lengthen}
use cpp_decimal.Round.Overflow.{Settled}
use cpp_decimal.Units.{d2u, powers}
use cpp_decimal.Units.AddSub.{unit_add_sub}
use cpp_decimal.Arith.Add.Zero.{add_special, add_to_zero, add_zero, add_sufficient}
use cpp_decimal.Arith.Add.Units.{add_fast, add_aligned}

-- Two finite numbers that are not 0: the one of the larger exponent is padded.
pub add_nonzero :
    Bool → Bool → DecNumber → DecNumber → DecNumber → DecContext → ℕ → Bool → ℕ → Settled
add_nonzero allocated overlap res lhs rhs set negate diffsign status =
    let swapped = ltb_ℤ rhs.exponent lhs.exponent in
    let low = if swapped then rhs else lhs in
    let high = if swapped then lhs else rhs in
    let padding = pos_part (high.exponent -ℤ low.exponent) in
    let bits = if swapped then bit_xor rhs.bits negate else lhs.bits in
    elim (add_fast lhs rhs set diffsign) [
      | some dn ↦ record { number = dn; status = status }
      | none ↦
          if not (padding == 0)
            && ltb_ℤ (pos low.digits +ℤ set.digits +ℤ pos 1) (pos (high.digits + padding))
          then add_sufficient allocated high set (if swapped then 0 else negate) diffsign status
          else add_aligned allocated overlap res low high padding set bits diffsign status
    ]

pub add_operands : Bool → Bool → DecNumber → DecNumber → DecNumber → DecContext → ℕ → ℕ → Settled
add_operands allocated overlap res lhs rhs set negate status =
    let diffsign = has (bit_xor (bit_xor lhs.bits rhs.bits) negate) neg_bit in
    if has (bit_or lhs.bits rhs.bits) special_bits
    then add_special res lhs rhs set negate diffsign status
    else if is_zero lhs
    then add_to_zero allocated lhs rhs set negate diffsign status
    else if is_zero rhs
    then add_zero allocated lhs rhs set status
    else add_nonzero allocated overlap res lhs rhs set negate diffsign status

-- decAddOp. `negate` is DECNEG for a subtraction and 0 otherwise; `allocated` is the answer of `malloc`.
pub add_op : Bool → Bool → DecNumber → DecNumber → DecNumber → DecContext → ℕ → ℕ → Settled
add_op allocated overlap res lhs rhs set negate status =
    let no_room : ℕ → Settled =
      λ s. record { number = res; status = bit_or s insufficient_storage } in
    elim (reduce_operand allocated lhs set status) [
      | none ↦ no_room status
      | some l ↦ elim (reduce_operand allocated rhs set l.status) [
        | none ↦ no_room l.status
        | some r ↦ add_operands allocated overlap res l.number r.number set negate r.status
      ]
    ]

-- decNumberAdd
pub add : Bool → Bool → DecNumber → DecNumber → DecNumber → DecContext → Reported
add allocated overlap res lhs rhs set =
    let s = add_op allocated overlap res lhs rhs set 0 0 in deliver s.number s.status set

-- decNumberSubtract
pub subtract : Bool → Bool → DecNumber → DecNumber → DecNumber → DecContext → Reported
subtract allocated overlap res lhs rhs set =
    let s = add_op allocated overlap res lhs rhs set neg_bit 0 in deliver s.number s.status set

-- A zero that leaves the exponent of `rhs` as it is.
abbrev zero_like : DecNumber → DecNumber
zero_like rhs = record zero_number { exponent = rhs.exponent }

-- decNumberPlus
pub plus : Bool → Bool → DecNumber → DecNumber → DecContext → Reported
plus allocated overlap res rhs set =
    let s = add_op allocated overlap res (zero_like rhs) rhs set 0 0 in
    deliver s.number s.status set

-- decNumberMinus
pub minus : Bool → Bool → DecNumber → DecNumber → DecContext → Reported
minus allocated overlap res rhs set =
    let s = add_op allocated overlap res (zero_like rhs) rhs set neg_bit 0 in
    deliver s.number s.status set

-- decNumberAbs
pub abs : Bool → Bool → DecNumber → DecNumber → DecContext → Reported
abs allocated overlap res rhs set =
    let s = add_op allocated overlap res (zero_like rhs) rhs set (bit_and rhs.bits neg_bit) 0 in
    deliver s.number s.status set
