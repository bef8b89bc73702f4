-- ===== src/Tests/NumberTests.antt =====
-- decCompare of src/decNumber.c at concrete inputs.
use cpp_decimal.Base.{◌≡◌, refl, arith, true, false, [], ◌∷◌, inr, some}
use cpp_decimal.Base.Int.{pos, neg_ℕ}
use cpp_decimal.Number.{DecNumber}
use cpp_decimal.Number.Compare.{compare_numbers}
use cpp_decimal.Number.Compare.Laws.{IsFinite, amount, aligned, order_ℤ, compare_numbers_lem}
use cpp_decimal.Units.{d2u}

-- -1.23 and -1.3
abbrev longer : DecNumber
longer = record { digits = 3; exponent = neg_ℕ 2; bits = 0x80; lsu = 23 ∷ 1 ∷ [] }

abbrev shorter : DecNumber
shorter = record { digits = 2; exponent = neg_ℕ 1; bits = 0x80; lsu = 13 ∷ [] }

longer-IsFinite : IsFinite longer
unfolding d2u
longer-IsFinite = record {
  coefficient = record {
    units = omega arith;
    same_length = refl;
    some_digit = omega arith;
    fits = omega arith;
    leading = inr (omega arith);
  };
  plain = refl;
}

shorter-IsFinite : IsFinite shorter
unfolding d2u
shorter-IsFinite = record {
  coefficient = record {
    units = omega arith;
    same_length = refl;
    some_digit = omega arith;
    fits = omega arith;
    leading = inr (omega arith);
  };
  plain = refl;
}

-- 123 against 130 at the exponent -2, both negative.
compare_numbers_lem_example :
    compare_numbers true longer shorter false
    ≡ some (
        order_ℤ
          (amount false longer (aligned longer shorter))
          (amount false shorter (aligned shorter longer)))
compare_numbers_lem_example =
    compare_numbers_lem longer shorter false longer-IsFinite shorter-IsFinite
      (omega arith, omega arith)

greater :
    order_ℤ
      (amount false longer (aligned longer shorter))
      (amount false shorter (aligned shorter longer))
    ≡ pos 1
greater = refl
