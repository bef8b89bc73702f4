-- ===== src/Round/Apply.antt =====
-- src/decNumber.c: decApplyRound. The pending residue decides, by the rounding mode, whether the
-- coefficient goes up or down by one.
pub mod Laws
use cpp_decimal.Base.{ℕ, zero, suc, ◌+◌, ◌-◌, ◌%◌, Bool, true, false, List, [], ◌∷◌, bit_or, not}
use cpp_decimal.Base.{ltb, leb, ◌==◌, if◌then◌else◌, ◌&&◌, bit_and}
use cpp_decimal.Base.Int.{ℤ, pos, negsuc, ◌+ℤ◌, ◌-ℤ◌, ltb_ℤ, leb_ℤ, eqb_ℤ}
use cpp_decimal.Context.{
  DecContext, Rounding, invalid_context, underflow, subnormal, inexact, rounded,
}
use cpp_decimal.Number.{DecNumber, is_negative, first_unit}
use cpp_decimal.Round.Coeff.{copy_units}
use cpp_decimal.Round.Overflow.{Settled, set_overflow}
use cpp_decimal.Units.{powers}
use cpp_decimal.Units.AddSub.{unit_add_sub}

-- 1, 0 or -1, from the mode, the sign, the lowest unit and the residue.
pub round_bump : Rounding → Bool → ℕ → ℤ → ℤ
round_bump Rounding.up05 negative unit residue =
    let lsd5 = unit % 5 in
    if ltb_ℤ residue (pos 0) && not (lsd5 == 1)
    then negsuc 0
    else if ltb_ℤ (pos 0) residue && lsd5 == 0
    then pos 1
    else pos 0
round_bump Rounding.down negative unit residue = if ltb_ℤ residue (pos 0) then negsuc 0 else pos 0
round_bump Rounding.half_down negative unit residue = if ltb_ℤ (pos 5) residue then pos 1 else pos 0
round_bump Rounding.half_even negative unit residue =
    if ltb_ℤ (pos 5) residue
    then pos 1
    else if eqb_ℤ residue (pos 5) && (bit_and unit 1 == 1)
    then pos 1
    else pos 0
round_bump Rounding.half_up negative unit residue = if leb_ℤ (pos 5) residue then pos 1 else pos 0
round_bump Rounding.up negative unit residue = if ltb_ℤ (pos 0) residue then pos 1 else pos 0
round_bump Rounding.ceiling negative unit residue =
    if negative
    then (if ltb_ℤ residue (pos 0) then negsuc 0 else pos 0)
    else if ltb_ℤ (pos 0) residue
    then pos 1
    else pos 0
round_bump Rounding.floor negative unit residue =
    if negative
    then (if ltb_ℤ (pos 0) residue then pos 1 else pos 0)
    else if ltb_ℤ residue (pos 0)
    then negsuc 0
    else pos 0
round_bump Rounding.max negative unit residue = pos 0

-- The default case of the switch: the mode is not one of the eight.
pub mode_status : Rounding → ℕ → ℕ
mode_status Rounding.max status = bit_or status invalid_context
mode_status round status = status

-- The test for a coefficient of nines, `count` digits from this unit on.
pub all_nines : List ℕ → ℕ → Bool
all_nines [] count = false
all_nines (u ∷ us) zero = u == powers 0 - 1
all_nines (u ∷ us) (suc zero) = u == powers 1 - 1
all_nines (u ∷ us) (suc (suc zero)) = u == powers 2 - 1
all_nines (u ∷ us) (suc (suc (suc count))) = u == 99 && all_nines us (suc count)

-- 99..9 becomes 10..0.
pub one_zeros : ℕ → List ℕ
one_zeros zero = 1 ∷ []
one_zeros (suc zero) = powers 0 ∷ []
one_zeros (suc (suc zero)) = powers 1 ∷ []
one_zeros (suc (suc (suc count))) = 0 ∷ one_zeros (suc count)

-- The test for 10..0.
pub is_power : List ℕ → ℕ → Bool
is_power [] count = false
is_power (u ∷ us) zero = false
is_power (u ∷ us) (suc zero) = u == powers 0
is_power (u ∷ us) (suc (suc zero)) = u == powers 1
is_power (u ∷ us) (suc (suc (suc count))) = u == 0 && is_power us (suc count)

-- 10..0 becomes 99..9, with `top` in the most significant unit of `count` digits.
pub nines_below : ℕ → ℕ → List ℕ
nines_below top zero = top ∷ []
nines_below top (suc zero) = top ∷ []
nines_below top (suc (suc zero)) = top ∷ []
nines_below top (suc (suc (suc count))) = (powers 2 - 1) ∷ nines_below top (suc count)

-- The digits in the most significant unit, as `count` is left by the loop.
pub top_count : ℕ → ℕ
top_count (suc (suc (suc count))) = top_count (suc count)
top_count count = count

-- The bump down of 10..0: at the subnormal boundary the final 9 is dropped again, and a unit that
-- had only that digit is no longer in use.
pub bump_power : DecNumber → DecContext → ℕ → Settled
bump_power dn set status =
    let count = top_count dn.digits in
    let exponent = dn.exponent -ℤ pos 1 in
    if eqb_ℤ (exponent +ℤ pos 1) (set.emin -ℤ set.digits +ℤ pos 1)
    then (let one_digit = (count == 1) && (dn.digits == 1) in
        record {
          number = record dn {
            lsu =
                if one_digit
                then 0 ∷ []
                else copy_units (dn.digits - 1) (nines_below (powers (count - 1) - 1) dn.digits);
            digits = if one_digit then dn.digits else dn.digits - 1;
            exponent = exponent +ℤ pos 1;
          };
          status = bit_or status (bit_or underflow (bit_or subnormal (bit_or inexact rounded)));
        })
    else record {
      number = record dn { lsu = nines_below (powers count - 1) dn.digits; exponent = exponent };
      status = status;
    }

-- The last step: decUnitAddSub adds or subtracts one.
pub bump_unit : DecNumber → ℤ → DecNumber
bump_unit dn bump = record dn { lsu = (unit_add_sub dn.lsu (1 ∷ []) 0 bump).units }

-- A bump up of 99..9 changes the exponent, and can overflow.
pub bump_up : DecNumber → DecContext → ℕ → Settled
bump_up dn set status =
    if all_nines dn.lsu dn.digits
    then (let dn' = record dn { lsu = one_zeros dn.digits; exponent = dn.exponent +ℤ pos 1 } in
        if ltb_ℤ (set.emax +ℤ pos 1) (dn'.exponent +ℤ pos dn'.digits)
        then set_overflow dn' set status
        else record { number = dn'; status = status })
    else record { number = bump_unit dn (pos 1); status = status }

pub bump_down : DecNumber → DecContext → ℕ → Settled
bump_down dn set status =
    if is_power dn.lsu dn.digits
    then bump_power dn set status
    else record { number = bump_unit dn (negsuc 0); status = status }

pub apply_round : DecNumber → DecContext → ℤ → ℕ → Settled
apply_round dn set residue status =
    let bump = round_bump set.round (is_negative dn) (first_unit dn.lsu) residue in
    let status' = mode_status set.round status in
    if eqb_ℤ residue (pos 0)
    then record { number = dn; status = status }
    else if eqb_ℤ bump (pos 0)
    then record { number = dn; status = status' }
    else if ltb_ℤ (pos 0) bump
    then bump_up dn set status'
    else bump_down dn set status'
