-- ===== src/Round/Overflow.antt =====
-- src/decNumber.c: decSetMaxValue and decSetOverflow.
pub mod Laws
use cpp_decimal.Base.{ℕ, zero, suc, ◌-◌, Bool, true, false, List, [], ◌∷◌, bit_and, bit_or, not}
use cpp_decimal.Base.{if◌then◌else◌, has}
use cpp_decimal.Base.Int.{ℤ, pos, pos_part, ◌+ℤ◌, ◌-ℤ◌, ltb_ℤ}
use cpp_decimal.Context.{DecContext, Rounding, overflow, inexact, rounded, clamped}
use cpp_decimal.Number.{DecNumber, is_zero, neg_bit, inf_bit, zero_number}
use cpp_decimal.Units.{powers}

-- A number with the status accumulator.
pub record Settled : Type 0 where
  pub number : DecNumber
  pub status : ℕ

-- The units of `count` nines.
pub nines : ℕ → List ℕ
nines zero = (powers 0 - 1) ∷ []
nines (suc zero) = (powers 1 - 1) ∷ []
nines (suc (suc zero)) = (powers 2 - 1) ∷ []
nines (suc (suc (suc count))) = 99 ∷ nines (suc count)

pub set_max_value : DecContext → DecNumber
set_max_value set = record {
  digits = pos_part set.digits;
  exponent = set.emax -ℤ set.digits +ℤ pos 1;
  bits = 0;
  lsu = nines (pos_part set.digits);
}

-- Whether an overflow gives the largest finite number, by the mode and the sign.
pub need_max : Rounding → Bool → Bool
need_max Rounding.down sign = true
need_max Rounding.up05 sign = true
need_max Rounding.ceiling sign = sign
need_max Rounding.floor sign = not sign
need_max round sign = false

pub set_overflow : DecNumber → DecContext → ℕ → Settled
set_overflow dn set status =
    let sign = bit_and dn.bits neg_bit in
    if is_zero dn
    then (let emax = if set.clamp then set.emax -ℤ (set.digits -ℤ pos 1) else set.emax in
        if ltb_ℤ emax dn.exponent
        then record { number = record dn { exponent = emax }; status = bit_or status clamped }
        else record { number = dn; status = status })
    else record {
      number =
          if need_max set.round (has dn.bits neg_bit)
          then record (set_max_value set) { bits = sign }
          else record zero_number { bits = bit_or sign inf_bit };
      status = bit_or status (bit_or overflow (bit_or inexact rounded));
    }
