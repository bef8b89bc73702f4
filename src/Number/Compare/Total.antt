-- ===== src/Number/Compare/Total.antt =====
-- With storage decCompare never fails.
use cpp_decimal.Base.{◌≡◌, refl, arith, Bool, true, Option, none, some}
use cpp_decimal.Base.Int.{ℤ, pos_part, ◌-ℤ◌, wrap_int}
use cpp_decimal.Number.{DecNumber}
use cpp_decimal.Number.Compare.{compare_numbers, compare_same_sign, compare_coefficients}
use cpp_decimal.Units.Compare.Total.{is_some, unit_compare-is_some}

of_is_some : (o : Option ℤ) → is_some o ≡ true → (c : ℤ) × (o ≡ some c)
of_is_some none h = cc h
of_is_some (some c) h = (c, refl)

compare_coefficients-is_some :
    (lhs rhs : DecNumber) (r : ℤ) → is_some (compare_coefficients true lhs rhs r) ≡ true
unfolding compare_coefficients
compare_coefficients-is_some lhs rhs r = ground (
  arith,
  unit_compare-is_some rhs.lsu lhs.lsu (pos_part (wrap_int (lhs.exponent -ℤ rhs.exponent))),
  unit_compare-is_some lhs.lsu rhs.lsu (pos_part (wrap_int (rhs.exponent -ℤ lhs.exponent))),
)

compare_same_sign-is_some :
    (lhs rhs : DecNumber) (r : ℤ) → is_some (compare_same_sign true lhs rhs r) ≡ true
unfolding compare_same_sign
compare_same_sign-is_some lhs rhs r = ground (arith, compare_coefficients-is_some lhs rhs r)

pub compare_numbers-total :
    (lhs rhs : DecNumber) (abs : Bool) → (c : ℤ) × (compare_numbers true lhs rhs abs ≡ some c)
unfolding compare_numbers
compare_numbers-total lhs rhs abs =
    of_is_some (compare_numbers true lhs rhs abs) (grind (arith, compare_same_sign-is_some))
