-- ===== src/Tests/UnitTests.antt =====
-- The unit arithmetic of src/decNumber.c at concrete inputs.
use cpp_decimal.Base.{ℕ, ◌≡◌, ◌≤◌, ◌<◌, arith, true, List, [], ◌∷◌, length}
use cpp_decimal.Base.Int.{negsuc}
use cpp_decimal.Units.{IsUnits, value}
use cpp_decimal.Units.AddSub.{unit_add_sub}
use cpp_decimal.Units.AddSub.Whole.{signed_value, unit_add_sub_lem}
use cpp_decimal.Units.Shift.{shift_to_most}
use cpp_decimal.Units.Shift.Laws.{IsShifted, shift_to_most_lem}
use cpp_decimal.Units.{d2u-eq}

-- 1234
abbrev small_units : List ℕ
small_units = 34 ∷ 12 ∷ []

-- 56
abbrev one_unit : List ℕ
one_unit = 56 ∷ []

-- 1234 - 7 * 5600 is -37966.
unit_add_sub_lem_example :
    let r = unit_add_sub small_units one_unit 1 (negsuc 6) in
    (signed_value r ≡ negsuc 37965)
    × IsUnits r.units
    × (r.negative ≡ true → 0 < value r.units)
    × (2 ≤ length r.units)
    × (length r.units ≤ 3)
unit_add_sub_lem_example =
    unit_add_sub_lem small_units one_unit 1 (negsuc 6) (omega arith) (omega arith) (omega arith)

-- 123 becomes 123000.
shift_to_most_lem_example : IsShifted (23 ∷ 1 ∷ []) 3 3 (shift_to_most (23 ∷ 1 ∷ []) 3 3)
shift_to_most_lem_example =
    shift_to_most_lem (23 ∷ 1 ∷ []) 3 3 (omega arith) (omega (arith, d2u-eq 3)) (omega arith)
      (omega arith)
