-- ===== src/Arith/Add/Units.antt =====
-- src/decNumber.c: decAddOp where the digits of both operands are added.
pub mod Sum
pub mod Exact
pub mod Fast
pub mod Rounded
pub mod Correct
use cpp_decimal.Base.{ℕ, ◌+◌, ◌-◌, ◌*◌, Bool, List, [], ◌∷◌, ◌++◌, length}
use cpp_decimal.Base.{
  bit_and, bit_or, bit_xor, ltb, leb, if◌then◌else◌, ◌&&◌, ◌||◌, not, Option, none, some,
}
use cpp_decimal.Base.Int.{pos, neg, ◌+ℤ◌, ◌-ℤ◌, ltb_ℤ, leb_ℤ, eqb_ℤ}
use cpp_decimal.Base.{complement8, bit_or, has}
use cpp_decimal.Number.{is_zero}
use cpp_decimal.Context.{Rounding, inexact}
use cpp_decimal.Context.{DecContext, insufficient_storage}
use cpp_decimal.Number.{DecNumber, first_unit, neg_bit}
use cpp_decimal.Number.Digits.{get_digits, recount}
use cpp_decimal.Number.Sign.{copy}
use cpp_decimal.Round.Apply.{apply_round}
use cpp_decimal.Round.Coeff.{Pending, set_coeff}
use cpp_decimal.Round.Finalize.{finish}
use cpp_decimal.Round.Overflow.{Settled}
use cpp_decimal.Units.{d2u, powers}
use cpp_decimal.Units.AddSub.{unit_add_sub}

-- A store to the lowest unit.
abbrev store_first : ℕ → List ℕ → List ℕ
store_first v [] = []
store_first v (u ∷ us) = v ∷ us

-- The operands are aligned and normal, the right one is in one unit, and none needs rounding.
abbrev can_add_fast : DecNumber → DecNumber → DecContext → Bool
can_add_fast lhs rhs set =
    eqb_ℤ rhs.exponent lhs.exponent
    && leb rhs.digits 2
    && leb_ℤ set.emin rhs.exponent
    && leb_ℤ rhs.exponent (set.emax -ℤ set.digits +ℤ pos 1)
    && leb_ℤ (pos rhs.digits) set.digits
    && leb_ℤ (pos lhs.digits) set.digits

-- The right operand changes the lowest unit alone: `none` where there is a carry, a borrow, a longer
-- number or a 0.
pub change_unit : DecNumber → DecNumber → Bool → Option DecNumber
change_unit lhs rhs diffsign =
    let a = first_unit lhs.lsu in
    let b = first_unit rhs.lsu in
    let res = copy lhs in
    if not diffsign
    then (if leb (a + b) 99 && (leb 2 lhs.digits || ltb (a + b) (powers lhs.digits))
        then some (record res { lsu = store_first (a + b) res.lsu })
        else none)
    else if ltb b a
    then some (recount (record res { lsu = store_first (a - b) res.lsu }))
    else none

-- The fast path.
pub add_fast : DecNumber → DecNumber → DecContext → Bool → Option DecNumber
add_fast lhs rhs set diffsign =
    if can_add_fast lhs rhs set then change_unit lhs rhs diffsign else none

-- Padding by shifts of whole units, and by a multiplication for an odd digit.
abbrev pub unit_shift : ℕ → ℕ
unit_shift padding = d2u (padding + 1) - 1

abbrev pub multiplier : ℕ → ℕ
multiplier padding = powers (padding - unit_shift padding * 2)

-- A + B * 10 ^ padding, or the difference: every digit of it, with the sign that it has when that
-- of A is in `bits`.
pub add_units : DecNumber → DecNumber → ℕ → ℕ → Bool → DecNumber
add_units lhs rhs padding bits diffsign =
    let mult = pos (multiplier padding) in
    let r =
      unit_add_sub lhs.lsu rhs.lsu (unit_shift padding) (if diffsign then neg mult else mult) in
    record {
      digits = length r.units * 2;
      exponent = lhs.exponent;
      bits = bit_xor (bit_and bits neg_bit) (if r.negative then neg_bit else 0);
      lsu = r.units;
    }

-- The sum comes back from the buffer, and is cut to the precision.
pub fit_sum : DecNumber → DecContext → ℕ → Pending
fit_sum sum set status =
    let digits = if ltb_ℤ set.digits (pos sum.digits) then get_digits sum.lsu else sum.digits in
    set_coeff sum set sum.lsu digits (pos 0) status

-- Subset arithmetic: leading zeros of the operands' length count as digits, and rounding comes first.
pub fit_sum_subset : DecNumber → ℕ → DecContext → ℕ → Pending
fit_sum_subset sum maxdigits set status =
    let longer = ltb sum.digits maxdigits in
    let acc = if longer then sum.lsu ++ (0 ∷ []) else sum.lsu in
    let counted = get_digits sum.lsu in
    let digits =
      if longer
      then maxdigits
      else if ltb_ℤ set.digits (pos sum.digits)
      then (if ltb counted maxdigits then maxdigits else counted)
      else sum.digits in
    let cut = set_coeff sum set acc digits (pos 0) status in
    if eqb_ℤ cut.residue (pos 0)
    then cut
    else (let r = apply_round cut.number set cut.residue cut.status in
        record { number = r.number; residue = pos 0; status = r.status })

-- The units of `accbuff`: SD2U(DECBUFFER * 2 + 20).
abbrev pub sum_buffer_units : ℕ
sum_buffer_units = 46

-- + in all rounding modes but the one towards -Infinity.
pub floor_sign : Rounding → ℕ → ℕ
floor_sign Rounding.floor bits = bit_or bits neg_bit
floor_sign round bits = bit_and bits (complement8 neg_bit)

-- The sign of an exact difference that is 0.
pub zero_difference : Settled → DecContext → Bool → Settled
zero_difference s set diffsign =
    if is_zero s.number && diffsign && set.extended && not (has s.status inexact)
    then record s { number = record s.number { bits = floor_sign set.round s.number.bits } }
    else s

-- The aligned sum. `overlap` says whether the result is to go where the shifted operand is.
pub add_aligned :
    Bool → Bool → DecNumber → DecNumber → DecNumber → ℕ → DecContext → ℕ → Bool → ℕ → Settled
add_aligned allocated overlap res lhs rhs padding set bits diffsign status =
    let virtual = rhs.digits + padding in
    let maxdigits = if ltb virtual lhs.digits then lhs.digits else virtual in
    let buffered = leb_ℤ set.digits (pos maxdigits) || (overlap && ltb 0 (unit_shift padding)) in
    if buffered && ltb sum_buffer_units (d2u maxdigits + 1) && not allocated
    then record { number = res; status = bit_or status insufficient_storage }
    else (let sum = add_units lhs rhs padding bits diffsign in
        let fit =
          if not buffered
          then record { number = sum; residue = pos 0; status = status }
          else if set.extended
          then fit_sum sum set status
          else fit_sum_subset sum maxdigits set status in
        zero_difference (finish allocated (recount fit.number) set fit.residue fit.status) set
          diffsign)
