-- ===== src/Number/Compare.antt =====
-- src/decNumber.c: decCompare, the numerical comparison of two numbers that are not NaNs.
pub mod Laws
pub mod Total
use cpp_decimal.Base.{ℕ, Bool, true, false, if◌then◌else◌, ◌||◌, Option, none, some}
use cpp_decimal.Base.{bit_or, has}
use mathlib.Core.Option
use cpp_decimal.Base.Int.{ℤ, pos, negsuc, pos_part, ◌-ℤ◌, ◌*ℤ◌, neg, ltb_ℤ, eqb_ℤ, wrap_int}
use cpp_decimal.Number.{DecNumber, is_zero, is_negative, is_infinite, inf_bit}
use cpp_decimal.Units.Compare.{unit_compare}

-- The signum of a number.
pub signum : DecNumber → ℤ
signum dn = if is_zero dn then pos 0 else if is_negative dn then negsuc 0 else pos 1

-- One or both are infinite; the signums are the same.
pub compare_infinite : DecNumber → DecNumber → ℤ → ℤ
compare_infinite lhs rhs result =
    if is_infinite rhs then (if is_infinite lhs then pos 0 else neg result) else result

-- Both are finite: the coefficients, with the number of the larger exponent second. The difference of the
-- exponents is an Int; for one that has wrapped to below 0, where the code is undefined, nothing is shifted.
pub compare_coefficients : Bool → DecNumber → DecNumber → ℤ → Option ℤ
compare_coefficients allocated lhs rhs result =
    if ltb_ℤ rhs.exponent lhs.exponent
    then Option.map (λ c. c *ℤ neg result)
        (unit_compare allocated rhs.lsu lhs.lsu
          (pos_part (wrap_int (lhs.exponent -ℤ rhs.exponent))))
    else Option.map (λ c. c *ℤ result)
        (unit_compare allocated lhs.lsu rhs.lsu
          (pos_part (wrap_int (rhs.exponent -ℤ lhs.exponent))))

pub compare_same_sign : Bool → DecNumber → DecNumber → ℤ → Option ℤ
compare_same_sign allocated lhs rhs result =
    if has (bit_or lhs.bits rhs.bits) inf_bit
    then some (compare_infinite lhs rhs result)
    else compare_coefficients allocated lhs rhs result

-- `none` is BADINT, when storage was needed and `malloc` failed.
pub compare_numbers : Bool → DecNumber → DecNumber → Bool → Option ℤ
compare_numbers allocated lhs rhs abs =
    if abs
    then (let result = if is_zero lhs then pos 0 else pos 1 in
        if is_zero rhs
        then some result
        else if eqb_ℤ result (pos 0)
        then some (negsuc 0)
        else compare_same_sign allocated lhs rhs result)
    else (let result = signum lhs in
        let sigr = signum rhs in
        if ltb_ℤ sigr result
        then some (pos 1)
        else if ltb_ℤ result sigr
        then some (negsuc 0)
        else if eqb_ℤ result (pos 0)
        then some (pos 0)
        else compare_same_sign allocated lhs rhs result)
