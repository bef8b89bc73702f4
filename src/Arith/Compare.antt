-- ===== src/Arith/Compare.antt =====
-- src/decNumber.c: decCompareOp, and the comparisons, maxima and minima on it.
pub mod Laws
pub mod Total
pub mod Extreme
use cpp_decimal.Base.{ℕ, Bool, true, false, ◌∷◌, []}
use cpp_decimal.Base.{bit_or, has, if◌then◌else◌, ◌&&◌, ◌||◌, not, Option, none, some}
use mathlib.Core.Option
use cpp_decimal.Base.Int.{ℤ, pos, negsuc, neg, ltb_ℤ, eqb_ℤ}
use cpp_decimal.Arith.Operand.{reduce_operand}
use cpp_decimal.Context.{DecContext, insufficient_storage, invalid_operation}
use cpp_decimal.Number.{
  DecNumber, is_nan, is_negative, is_qnan, is_snan, nan_bit, neg_bit, snan_bit, zero_number,
}
use cpp_decimal.Number.Compare.{compare_numbers}
use cpp_decimal.Number.Nan.{Reported, deliver, propagate_nans, snan_status}
use cpp_decimal.Number.Sign.{copy_abs}
use cpp_decimal.Round.Coeff.{copy_fit}
use cpp_decimal.Round.Finalize.{finish}
use cpp_decimal.Round.Overflow.{Settled}
use cpp_decimal.Units.Compare.{unit_compare}

-- The operation. COMPNAN, which the code gives to `op` itself, is `nan` of `Verdict` below.
pub data CompareOp : Type 0 where
  compare : CompareOp
  compmax : CompareOp
  compmin : CompareOp
  comptotal : CompareOp
  compsig : CompareOp
  compmaxmag : CompareOp
  compminmag : CompareOp

abbrev is_total : CompareOp → Bool
is_total CompareOp.comptotal = true
is_total op = false

-- COMPARE, COMPSIG and COMPTOTAL return the signum.
abbrev pub is_signum : CompareOp → Bool
is_signum CompareOp.compare = true
is_signum CompareOp.compsig = true
is_signum CompareOp.comptotal = true
is_signum op = false

abbrev pub is_magnitude : CompareOp → Bool
is_magnitude CompareOp.compmaxmag = true
is_magnitude CompareOp.compminmag = true
is_magnitude op = false

abbrev pub is_min : CompareOp → Bool
is_min CompareOp.compmin = true
is_min CompareOp.compminmag = true
is_min op = false

-- What the comparison leads to: the result with the operation that is left, BADINT, or a NaN.
pub data Verdict : Type 0 where
  ordered : CompareOp → ℤ → Verdict
  bad_int : Verdict
  nan : Settled → Verdict

pub of_comparison : CompareOp → Option ℤ → Verdict
of_comparison op (some c) = Verdict.ordered op c
of_comparison op none = Verdict.bad_int

-- The total order of two operands of the same sign, one of them a NaN at least.
pub order_nans : Bool → DecNumber → DecNumber → Option ℤ
order_nans allocated lhs rhs =
    let result =
      if not (is_nan lhs)
      then some (negsuc 0)
      else if not (is_nan rhs)
      then some (pos 1)
      else if is_snan lhs && is_qnan rhs
      then some (negsuc 0)
      else if is_qnan lhs && is_snan rhs
      then some (pos 1)
      else unit_compare allocated lhs.lsu rhs.lsu 0 in
    Option.map (λ c. if is_negative lhs then neg c else c) result

-- A NaN bit is set in one of the operands.
pub compare_nans : Bool → DecNumber → DecNumber → DecContext → CompareOp → ℕ → Verdict
compare_nans allocated lhs rhs set CompareOp.compare status =
    Verdict.nan (propagate_nans lhs (some rhs) set status)
compare_nans allocated lhs rhs set CompareOp.compsig status =
    Verdict.nan
      (propagate_nans lhs (some rhs) set (bit_or status (bit_or invalid_operation snan_status)))
compare_nans allocated lhs rhs set CompareOp.comptotal status =
    of_comparison CompareOp.comptotal (order_nans allocated lhs rhs)
compare_nans allocated lhs rhs set op status =
    if not (has (bit_or lhs.bits rhs.bits) snan_bit) && (not (is_nan lhs) || not (is_nan rhs))
    then Verdict.ordered CompareOp.compmax (if has lhs.bits nan_bit then negsuc 0 else pos 1)
    else Verdict.nan (propagate_nans lhs (some rhs) set status)

pub compare_operands : Bool → DecNumber → DecNumber → DecContext → CompareOp → ℕ → Verdict
compare_operands allocated lhs rhs set op status =
    if is_total op && is_negative lhs && not (is_negative rhs)
    then Verdict.ordered op (negsuc 0)
    else if is_total op && not (is_negative lhs) && is_negative rhs
    then Verdict.ordered op (pos 1)
    else if has (bit_or lhs.bits rhs.bits) (bit_or snan_bit nan_bit)
    then compare_nans allocated lhs rhs set op status
    else of_comparison op (compare_numbers allocated lhs rhs (is_magnitude op))

-- COMPTOTAL orders equal numbers by their exponents.
pub by_exponent : CompareOp → DecNumber → DecNumber → ℤ → ℤ
by_exponent CompareOp.comptotal lhs rhs result =
    if eqb_ℤ result (pos 0) && not (eqb_ℤ lhs.exponent rhs.exponent)
    then (let higher = if ltb_ℤ lhs.exponent rhs.exponent then negsuc 0 else pos 1 in
        if is_negative lhs then neg higher else higher)
    else result
by_exponent op lhs rhs result = result

-- The signum as a number.
pub signum_number : ℤ → DecNumber
signum_number result =
    if eqb_ℤ result (pos 0)
    then zero_number
    else record zero_number { bits = if ltb_ℤ result (pos 0) then neg_bit else 0; lsu = 1 ∷ [] }

-- Which of two equal operands is the maximum: by the sign, and then by the exponent.
pub break_tie : DecNumber → DecNumber → ℤ
break_tie lhs rhs =
    if is_negative lhs
    then (if not (is_negative rhs)
        then negsuc 0
        else if ltb_ℤ lhs.exponent rhs.exponent
        then pos 1
        else negsuc 0)
    else if is_negative rhs
    then pos 1
    else if ltb_ℤ rhs.exponent lhs.exponent
    then pos 1
    else negsuc 0

-- The operand that is the maximum or the minimum. Subset arithmetic takes the left one of a tie.
pub choose : Bool → CompareOp → DecNumber → DecNumber → ℤ → DecNumber
choose extended op lhs rhs result =
    let tied = eqb_ℤ result (pos 0) in
    let larger = if not tied then result else if extended then break_tie lhs rhs else pos 1 in
    let reversed = is_min op && not (tied && not extended) in
    if ltb_ℤ (pos 0) (if reversed then neg larger else larger) then lhs else rhs

pub settle_verdict : Bool → DecNumber → DecNumber → DecNumber → DecContext → ℕ → Verdict → Settled
settle_verdict allocated res lhs rhs set status Verdict.bad_int = record {
  number = res;
  status = bit_or status insufficient_storage;
}
settle_verdict allocated res lhs rhs set status (Verdict.nan s) = s
settle_verdict allocated res lhs rhs set status (Verdict.ordered op result) =
    if is_signum op
    then record { number = signum_number (by_exponent op lhs rhs result); status = status }
    else (let fit = copy_fit res (choose set.extended op lhs rhs result) set (pos 0) status in
        finish allocated fit.number set fit.residue fit.status)

-- decCompareOp. `allocated` is the answer of `malloc`.
pub compare_op : Bool → DecNumber → DecNumber → DecNumber → DecContext → CompareOp → ℕ → Settled
compare_op allocated res lhs rhs set op status =
    let no_room : ℕ → Settled =
      λ s. record { number = res; status = bit_or s insufficient_storage } in
    elim (reduce_operand allocated lhs set status) [
      | none ↦ no_room status
      | some l ↦ elim (reduce_operand allocated rhs set l.status) [
        | none ↦ no_room l.status
        | some r ↦
            settle_verdict allocated res l.number r.number set r.status
              (compare_operands allocated l.number r.number set op r.status)
      ]
    ]

-- The operators: a status that is not 0 is reported.
pub compare_with : CompareOp → Bool → DecNumber → DecNumber → DecNumber → DecContext → Reported
compare_with op allocated res lhs rhs set =
    let s = compare_op allocated res lhs rhs set op 0 in deliver s.number s.status set

-- decNumberCompare
pub number_compare : Bool → DecNumber → DecNumber → DecNumber → DecContext → Reported
number_compare = compare_with CompareOp.compare

-- decNumberCompareSignal
pub compare_signal : Bool → DecNumber → DecNumber → DecNumber → DecContext → Reported
compare_signal = compare_with CompareOp.compsig

-- decNumberCompareTotal
pub compare_total : Bool → DecNumber → DecNumber → DecNumber → DecContext → Reported
compare_total = compare_with CompareOp.comptotal

-- decNumberMax
pub max : Bool → DecNumber → DecNumber → DecNumber → DecContext → Reported
max = compare_with CompareOp.compmax

-- decNumberMaxMag
pub max_mag : Bool → DecNumber → DecNumber → DecNumber → DecContext → Reported
max_mag = compare_with CompareOp.compmaxmag

-- decNumberMin
pub min : Bool → DecNumber → DecNumber → DecNumber → DecContext → Reported
min = compare_with CompareOp.compmin

-- decNumberMinMag
pub min_mag : Bool → DecNumber → DecNumber → DecNumber → DecContext → Reported
min_mag = compare_with CompareOp.compminmag
