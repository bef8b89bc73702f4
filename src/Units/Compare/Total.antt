-- ===== src/Units/Compare/Total.antt =====
-- With storage decUnitCompare never fails.
use cpp_decimal.Base.{ℕ, ◌≡◌, arith, Bool, true, false, List, Option, none, some}
use cpp_decimal.Base.Int.{ℤ}
use cpp_decimal.Units.Compare.{unit_compare}

abbrev pub is_some : Option ℤ → Bool
is_some none = false
is_some (some c) = true

pub unit_compare-is_some : (a b : List ℕ) (exp : ℕ) → is_some (unit_compare true a b exp) ≡ true
unfolding unit_compare
unit_compare-is_some a b exp = ground arith
