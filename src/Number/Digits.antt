-- ===== src/Number/Digits.antt =====
-- src/decNumber.c: decGetDigits, the digits of the number in an array of units.
pub mod Laws
pub mod Recount
use cpp_decimal.Number.{DecNumber}
use cpp_decimal.Round.Coeff.{copy_units}
use cpp_decimal.Base.{ℕ, ◌+◌, List, [], ◌∷◌, ltb, ◌==◌, if◌then◌else◌, Option, none, some}

-- The scan from the most significant unit down, for the units from the one at `digits` digits on: a
-- unit that is 0 is passed over.
pub scan_digits : List ℕ → ℕ → Option ℕ
scan_digits [] digits = none
scan_digits (u ∷ us) digits = elim (scan_digits us (digits + 2)) [
  | some n ↦ some n
  | none ↦ if u == 0 then none else if ltb u 10 then some digits else some (digits + 1)
]

-- When every unit is 0 the scan ends at the last one, with one digit.
unfoldable pub get_digits : List ℕ → ℕ
get_digits us = elim (scan_digits us 1) [ some n ↦ n | none ↦ 1 ]

-- The digits are counted again over the units in use, and leading zero units are left out.
pub recount : DecNumber → DecNumber
recount dn = let n = get_digits dn.lsu in record dn { digits = n; lsu = copy_units n dn.lsu }
