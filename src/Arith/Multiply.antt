-- ===== src/Arith/Multiply.antt =====
-- src/decNumber.c: decMultiplyOp, multiplication.
pub mod Units
pub mod Chunks
pub mod Correct
pub mod Product
use cpp_decimal.Base.{ℕ, ◌+◌, ◌*◌, ◌-◌, ◌/◌, ◌^◌, Bool, true, false, List, [], ◌∷◌, length}
use cpp_decimal.Base.{
  bit_and, bit_or, bit_xor, has, ltb, if◌then◌else◌, ◌&&◌, ◌||◌, not, Option, none, some,
}
use cpp_decimal.Base.Int.{ℤ, pos, neg_ℕ, ◌+ℤ◌, ◌-ℤ◌, ltb_ℤ, wrap_int}
use cpp_decimal.Arith.Operand.{reduce_operand}
use cpp_decimal.Arith.Multiply.Chunks.{multiply_chunks}
use cpp_decimal.Arith.Multiply.Units.{multiply_units}
use cpp_decimal.Context.{DecContext, insufficient_storage, invalid_operation}
use cpp_decimal.Number.{
  DecNumber, inf_bit, is_infinite, is_zero, nan_bit, neg_bit, snan_bit, special_bits, zero_number,
}
use cpp_decimal.Number.Digits.{get_digits}
use cpp_decimal.Number.Nan.{Reported, deliver, propagate_nans}
use cpp_decimal.Round.Coeff.{set_coeff}
use cpp_decimal.Round.Finalize.{finish}
use cpp_decimal.Round.Overflow.{Settled}
use cpp_decimal.Units.{d2u}

-- Infinities and NaNs. Where the operation is invalid `res` is left as it was.
pub multiply_special : DecNumber → DecNumber → DecNumber → DecContext → ℕ → ℕ → Settled
multiply_special res lhs rhs set bits status =
    if has (bit_or lhs.bits rhs.bits) (bit_or snan_bit nan_bit)
    then propagate_nans lhs (some rhs) set status
    else if (not (is_infinite lhs) && is_zero lhs) || (not (is_infinite rhs) && is_zero rhs)
    then record { number = res; status = bit_or status invalid_operation }
    else record { number = record zero_number { bits = bit_or bits inf_bit }; status = status }

-- The exponent of the product, with a safe one after a wrap: DECNUMMAXE is 999999999.
pub product_exponent : ℤ → ℤ → ℤ
product_exponent l r =
    let exponent = wrap_int (l +ℤ r) in
    if ltb_ℤ l (pos 0) && ltb_ℤ r (pos 0) && ltb_ℤ (pos 0) exponent
    then neg_ℕ (2 * 999999999)
    else exponent

-- The items of eight digits that a coefficient needs.
abbrev items_of : ℕ → ℕ
items_of digits = (digits + 8 - 1) / 8

-- Whether the buffers are too short: `zlhibuff`, `zrhibuff` and `zaccbuff`, or `accbuff` for the units.
pub multiply_space : ℕ → ℕ → Bool
multiply_space ldigits rdigits =
    if ltb 4 rdigits
    then ltb 10 (items_of ldigits)
      || ltb 10 (items_of rdigits)
      || ltb 20 (items_of ldigits + items_of rdigits)
    else ltb 73 (d2u ldigits + d2u rdigits)

-- The units of the product of the longer number and the shorter one.
pub product_units : DecNumber → DecNumber → List ℕ
product_units lhs rhs =
    if ltb 4 rhs.digits
    then multiply_chunks lhs.lsu rhs.lsu
    else multiply_units lhs.lsu 0 rhs.lsu (0 ∷ [])

pub multiply_finite : Bool → DecNumber → DecNumber → DecNumber → DecContext → ℕ → ℕ → Settled
multiply_finite allocated res lhs rhs set bits status =
    if multiply_space lhs.digits rhs.digits && not allocated
    then record { number = res; status = bit_or status insufficient_storage }
    else (let acc = product_units lhs rhs in
        let dn : DecNumber = record res {
          bits = bits;
          digits = get_digits acc;
          exponent = product_exponent lhs.exponent rhs.exponent;
        } in
        let fit = set_coeff dn set acc dn.digits (pos 0) status in
        finish allocated fit.number set fit.residue fit.status)

-- decMultiplyOp. `allocated` is the answer of `malloc`.
pub multiply_op : Bool → DecNumber → DecNumber → DecNumber → DecContext → ℕ → Settled
multiply_op allocated res lhs rhs set status =
    let bits = bit_and (bit_xor lhs.bits rhs.bits) neg_bit in
    let longer = if ltb lhs.digits rhs.digits then rhs else lhs in
    let shorter = if ltb lhs.digits rhs.digits then lhs else rhs in
    let no_room : ℕ → Settled =
      λ s. record { number = res; status = bit_or s insufficient_storage } in
    if has (bit_or lhs.bits rhs.bits) special_bits
    then multiply_special res lhs rhs set bits status
    else elim (reduce_operand allocated longer set status) [
      | none ↦ no_room status
      | some l ↦ elim (reduce_operand allocated shorter set l.status) [
        | none ↦ no_room l.status
        | some r ↦ multiply_finite allocated res l.number r.number set bits r.status
      ]
    ]

-- decNumberMultiply
pub multiply : Bool → DecNumber → DecNumber → DecNumber → DecContext → Reported
multiply allocated res lhs rhs set =
    let s = multiply_op allocated res lhs rhs set 0 in deliver s.number s.status set
