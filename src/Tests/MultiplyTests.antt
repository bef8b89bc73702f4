-- ===== src/Tests/MultiplyTests.antt =====
-- Multiplication at concrete inputs.
use cpp_decimal.Base.{◌*◌, refl, arith, List, [], ◌∷◌, ℕ, true}
use cpp_decimal.Arith.Multiply.{multiply_op}
use cpp_decimal.Arith.Multiply.Chunks.{multiply_chunks}
use cpp_decimal.Arith.Multiply.Chunks.Loop.{multiply_chunks-IsProduct}
use cpp_decimal.Arith.Multiply.Correct.{IsMultiplying}
use cpp_decimal.Arith.Multiply.Product.{
  IsExactProduct, IsRoundedProduct, multiply_op-IsExactProduct, multiply_op-IsRoundedProduct,
}
use cpp_decimal.Arith.Multiply.Units.Laws.{IsProduct}
use cpp_decimal.Context.{Rounding}
use cpp_decimal.Number.{zero_number}
use cpp_decimal.Tests.ArithTests.{
  five, debit, credit, whole, part, debit-IsFinite, credit-IsFinite, whole-IsFinite, part-IsFinite,
}
use cpp_decimal.Units.{value}

small : IsMultiplying debit credit five 5
small = record {
  precision = refl;
  some_digit = omega arith;
  extended = refl;
  left = debit-IsFinite;
  right = credit-IsFinite;
  emin_limit = omega arith;
  emax_limit = omega arith;
  above = omega arith;
  below = omega arith;
}

large : IsMultiplying whole part five 5
large = record {
  precision = refl;
  some_digit = omega arith;
  extended = refl;
  left = whole-IsFinite;
  right = part-IsFinite;
  emin_limit = omega arith;
  emax_limit = omega arith;
  above = omega arith;
  below = omega arith;
}

-- -1.23 * 1.3 is -1.599.
multiply_op-IsExactProduct_example :
    IsExactProduct debit credit 0 (multiply_op true zero_number debit credit five 0)
multiply_op-IsExactProduct_example =
    multiply_op-IsExactProduct zero_number debit credit five 0 5 small (omega arith)

-- 12345 * 0.678 is 8369.910, of seven digits, and rounded 8369.9.
multiply_op-IsRoundedProduct_example :
    IsRoundedProduct whole part 4 1 Rounding.half_even
      (multiply_op true zero_number whole part five 0)
multiply_op-IsRoundedProduct_example =
    multiply_op-IsRoundedProduct zero_number whole part five 0 4 1 large (omega arith) (omega arith)
      (omega arith)

-- 1234567890123 and 98765
abbrev wide : List ℕ
wide = 23 ∷ 1 ∷ 89 ∷ 67 ∷ 45 ∷ 23 ∷ 1 ∷ []

abbrev narrow : List ℕ
narrow = 65 ∷ 87 ∷ 9 ∷ []

multiply_chunks-IsProduct_example :
    IsProduct (value wide * value narrow) (multiply_chunks wide narrow)
multiply_chunks-IsProduct_example =
    multiply_chunks-IsProduct wide narrow (omega arith) (omega arith) (omega arith)
