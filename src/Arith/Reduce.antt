-- ===== src/Arith/Reduce.antt =====
-- src/decNumber.c: decNumberReduce, which rounds a number and drops its trailing zeros.
use cpp_decimal.Base.{Bool, true, false, bit_or, none, some, if◌then◌else◌}
use cpp_decimal.Base.Int.{pos}
use cpp_decimal.Arith.Operand.{reduce_operand}
use cpp_decimal.Context.{DecContext, insufficient_storage}
use cpp_decimal.Number.{DecNumber, is_nan}
use cpp_decimal.Number.Nan.{Reported, deliver, propagate_nans}
use cpp_decimal.Number.Trim.{trim}
use cpp_decimal.Round.Coeff.{copy_fit}
use cpp_decimal.Round.Finalize.{finish}
use cpp_decimal.Round.Overflow.{Settled}

-- An operand that is not reduced any more.
pub reduce_number : Bool → DecNumber → Settled → DecContext → Settled
reduce_number allocated res rhs set =
    if is_nan rhs.number
    then propagate_nans rhs.number none set rhs.status
    else (let fit = copy_fit res rhs.number set (pos 0) rhs.status in
        let done = finish allocated fit.number set fit.residue fit.status in
        record { number = (trim done.number set true false).number; status = done.status })

-- decNumberReduce
pub reduce : Bool → DecNumber → DecNumber → DecContext → Reported
reduce allocated res rhs set =
    let s : Settled = elim (reduce_operand allocated rhs set 0) [
      | none ↦ record { number = res; status = bit_or 0 insufficient_storage }
      | some r ↦ reduce_number allocated res r set
    ] in
    deliver s.number s.status set

-- decNumberNormalize
pub normalize : Bool → DecNumber → DecNumber → DecContext → Reported
normalize = reduce
