-- ===== src/Round/Finalize.antt =====
-- src/decNumber.c: decSetSubnormal, decFinalize and decFinish. A result whose coefficient is cut to the
-- precision is brought into the exponent range of the context.
pub mod Laws
use cpp_decimal.Base.{
  ℕ, Bool, true, false, bit_or, has, if◌then◌else◌, ◌&&◌, not, Option, none, some, [], ◌∷◌,
}
use cpp_decimal.Base.Int.{ℤ, pos, pos_part, ◌+ℤ◌, ◌-ℤ◌, ltb_ℤ, leb_ℤ, eqb_ℤ}
use cpp_decimal.Context.{
  DecContext, clamped, inexact, insufficient_storage, rounded, subnormal, underflow,
}
use cpp_decimal.Number.{DecNumber, is_zero, zero_number}
use cpp_decimal.Number.Compare.{compare_numbers}
use cpp_decimal.Round.Apply.{apply_round}
use cpp_decimal.Round.Coeff.{set_coeff}
use cpp_decimal.Round.Overflow.{Settled, set_overflow}
use cpp_decimal.Units.Shift.{shift_to_most}

-- decShiftToMost on the coefficient of a number.
unfoldable pub lengthen : DecNumber → ℕ → DecNumber
lengthen dn shift =
    let r = shift_to_most dn.lsu dn.digits shift in record dn { lsu = r.0; digits = r.1 }

-- Underflow, where a subnormal result is inexact.
abbrev pub with_underflow : ℕ → ℕ
with_underflow status = if has status inexact then bit_or status underflow else status

-- The smallest exponent of all: Etiny.
abbrev pub etiny : DecContext → ℤ
etiny set = set.emin -ℤ (set.digits -ℤ pos 1)

-- The subnormal is rescaled to Etiny: `adjust` digits are removed.
pub rescale_subnormal : DecNumber → DecContext → ℤ → ℤ → ℕ → Settled
rescale_subnormal dn set adjust residue status =
    let workset = record set { digits = pos dn.digits -ℤ adjust; emin = set.emin -ℤ adjust } in
    let cut = set_coeff dn workset dn.lsu dn.digits residue status in
    let r = apply_round cut.number workset cut.residue cut.status in
    let number =
      if ltb_ℤ (etiny set) r.number.exponent
      then record (lengthen r.number 1) { exponent = r.number.exponent -ℤ pos 1 }
      else r.number in
    let status' = with_underflow r.status in
    record { number = number; status = if is_zero number then bit_or status' clamped else status' }

pub set_subnormal : DecNumber → DecContext → ℤ → ℕ → Settled
set_subnormal dn set residue status =
    if not set.extended
    then record {
      number = zero_number;
      status = bit_or status (bit_or underflow (bit_or subnormal (bit_or inexact rounded)));
    }
    else if is_zero dn
    then (if ltb_ℤ dn.exponent (etiny set)
        then record { number = record dn { exponent = etiny set }; status = bit_or status clamped }
        else record { number = dn; status = status })
    else (let status' = bit_or status subnormal in
        let adjust = etiny set -ℤ dn.exponent in
        if leb_ℤ adjust (pos 0)
        then record { number = dn; status = with_underflow status' }
        else rescale_subnormal dn set adjust residue status')

-- Nmin, the smallest normal number.
abbrev pub nmin : DecContext → DecNumber
nmin set = record zero_number { lsu = 1 ∷ []; exponent = set.emin }

-- The IEEE exponent clamp: the exponent is folded down, and the coefficient padded.
pub fold_down : DecNumber → DecContext → ℕ → Settled
fold_down dn set status =
    let shift = dn.exponent -ℤ (set.emax -ℤ set.digits +ℤ pos 1) in
    let padded = if is_zero dn then dn else lengthen dn (pos_part shift) in
    record {
      number = record padded { exponent = dn.exponent -ℤ shift };
      status = bit_or status clamped;
    }

-- The tests for overflow and for the clamp.
pub check_top : Settled → DecContext → Settled
check_top s set =
    if leb_ℤ s.number.exponent (set.emax -ℤ set.digits +ℤ pos 1)
    then s
    else if ltb_ℤ (set.emax -ℤ pos s.number.digits +ℤ pos 1) s.number.exponent
    then set_overflow s.number set s.status
    else if not set.clamp
    then s
    else fold_down s.number set s.status

pub round_pending : DecNumber → DecContext → ℤ → ℕ → Settled
round_pending dn set residue status =
    if eqb_ℤ residue (pos 0)
    then record { number = dn; status = status }
    else apply_round dn set residue status

-- At the subnormal boundary: only Nmin with a negative residue is subnormal. `none` is BADINT.
pub finalize_boundary : Option ℤ → DecNumber → DecContext → ℤ → ℕ → Settled
finalize_boundary none dn set residue status = record {
  number = dn;
  status = bit_or status insufficient_storage;
}
finalize_boundary (some comp) dn set residue status =
    if ltb_ℤ residue (pos 0) && eqb_ℤ comp (pos 0)
    then (let r = apply_round dn set residue status in set_subnormal r.number set residue r.status)
    else check_top (round_pending dn set residue status) set

-- `allocated` is the answer of `malloc` in the comparison.
pub finalize : Bool → DecNumber → DecContext → ℤ → ℕ → Settled
finalize allocated dn set residue status =
    let tinyexp = set.emin -ℤ pos dn.digits +ℤ pos 1 in
    if ltb_ℤ dn.exponent tinyexp
    then set_subnormal dn set residue status
    else if leb_ℤ dn.exponent tinyexp
    then finalize_boundary (compare_numbers allocated dn (nmin set) true) dn set residue status
    else check_top (round_pending dn set residue status) set

pub finish : Bool → DecNumber → DecContext → ℤ → ℕ → Settled
finish allocated dn set residue status =
    if set.extended
    then finalize allocated dn set residue status
    else if is_zero dn
    then record { number = record dn { exponent = pos 0; bits = 0 }; status = status }
    else if leb_ℤ (pos 0) dn.exponent && leb_ℤ (dn.exponent +ℤ pos dn.digits) set.digits
    then finalize allocated (record (lengthen dn (pos_part dn.exponent)) { exponent = pos 0 }) set
        residue status
    else finalize allocated dn set residue status
