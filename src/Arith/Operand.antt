-- ===== src/Arith/Operand.antt =====
-- src/decNumber.c: decRoundOperand. Under subset arithmetic an operand is rounded first.
use cpp_decimal.Base.{ℕ, Bool, true, ◌≡◌, bit_or, has, if◌then◌else◌, ◌||◌, not, Option, none, some}
use cpp_decimal.Base.Int.{pos, ltb_ℤ}
use cpp_decimal.Context.{DecContext, inexact, lost_digits}
use cpp_decimal.Number.{DecNumber}
use cpp_decimal.Round.Apply.{apply_round}
use cpp_decimal.Round.Coeff.{copy_fit}
use cpp_decimal.Round.Overflow.{Settled}

-- `none` when there is no storage; the status is then the caller's with Insufficient_storage.
pub round_operand : Bool → DecNumber → DecContext → ℕ → Option Settled
round_operand allocated dn set status =
    if not allocated
    then none
    else (let fit = copy_fit dn dn set (pos 0) 0 in
        let r = apply_round fit.number set fit.residue fit.status in
        let newstatus = if has r.status inexact then bit_or r.status lost_digits else r.status in
        some (record { number = r.number; status = bit_or status newstatus }))

-- The operand as the operator takes it.
unfoldable pub reduce_operand : Bool → DecNumber → DecContext → ℕ → Option Settled
reduce_operand allocated dn set status =
    if set.extended || not (ltb_ℤ set.digits (pos dn.digits))
    then some (record { number = dn; status = status })
    else round_operand allocated dn set status

-- For extended arithmetic the operand is taken as it is.
pub kept_operand :
    (dn : DecNumber) (set : DecContext) (status : ℕ)
    → set.extended ≡ true
    → reduce_operand true dn set status ≡ some (record { number = dn; status = status })
unfolding reduce_operand
kept_operand dn set status ext = simp ext
