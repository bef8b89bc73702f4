-- ===== src/Tests/ArithTests.antt =====
-- Addition, comparison and NaNs at concrete inputs.
use cpp_decimal.Base.{◌≡◌, refl, arith, true, false, [], ◌∷◌, inr}
use cpp_decimal.Base.{◌⊎◌}
use cpp_decimal.Base.Int.{pos, neg, neg_ℕ}
use cpp_decimal.Arith.Add.{add_op}
use cpp_decimal.Arith.Add.Exact.{IsFitting, add_op-IsExactSum}
use cpp_decimal.Arith.Add.Signs.{exact_sum, lower}
use cpp_decimal.Arith.Add.Units.Exact.{IsExactSum}
use cpp_decimal.Arith.Add.Rounded.{IsRounding, add_op-IsRoundedSum}
use cpp_decimal.Arith.Add.Units.Correct.{IsRoundedSum}
use cpp_decimal.Round.Spec.{round_quotient, rounds_up}
use cpp_decimal.Arith.Add.{add, subtract}
use cpp_decimal.Arith.Add.Operators.{IsQuietSum, add-IsQuietSum, subtract-IsQuietSum}
use cpp_decimal.Number.{neg_bit}
use cpp_decimal.Arith.Compare.{CompareOp, compare_op}
use cpp_decimal.Arith.Compare.Laws.{IsSignum, compare_op-IsSignum}
use cpp_decimal.Arith.Compare.Total.{
  total_order, compare_total-IsSignum, compare_total_flip, compare_total_zero,
}
use cpp_decimal.Arith.Compare.Extreme.{IsExtreme, IsHeld, compare_op-IsExtreme}
use cpp_decimal.Context.{DecContext, Rounding}
use cpp_decimal.Number.{DecNumber, is_negative, zero_number}
use cpp_decimal.Number.Compare.Laws.{IsFinite, amount, aligned, order_ℤ}
use cpp_decimal.Number.Int32.Laws.{signed}
use cpp_decimal.Number.Nan.{propagate_nan}
use cpp_decimal.Number.Nan.Laws.{IsQuieted, propagate_nan_lem}
use cpp_decimal.Units.{d2u, value}

-- A context of five digits.
abbrev pub five : DecContext
five = record {
  digits = pos 5;
  emin = neg_ℕ 99;
  emax = pos 99;
  round = Rounding.half_even;
  traps = 0;
  status = 0;
  clamp = false;
  extended = true;
}

-- -1.23 and 1.3, and 1.30
abbrev pub debit : DecNumber
debit = record { digits = 3; exponent = neg_ℕ 2; bits = 0x80; lsu = 23 ∷ 1 ∷ [] }

abbrev pub credit : DecNumber
credit = record { digits = 2; exponent = neg_ℕ 1; bits = 0; lsu = 13 ∷ [] }

abbrev pub padded : DecNumber
padded = record { digits = 3; exponent = neg_ℕ 2; bits = 0; lsu = 30 ∷ 1 ∷ [] }

pub debit-IsFinite : IsFinite debit
unfolding d2u
debit-IsFinite = record {
  coefficient = record {
    units = omega arith;
    same_length = refl;
    some_digit = omega arith;
    fits = omega arith;
    leading = inr (omega arith);
  };
  plain = refl;
}

pub credit-IsFinite : IsFinite credit
unfolding d2u
credit-IsFinite = record {
  coefficient = record {
    units = omega arith;
    same_length = refl;
    some_digit = omega arith;
    fits = omega arith;
    leading = inr (omega arith);
  };
  plain = refl;
}

pub padded-IsFinite : IsFinite padded
unfolding d2u
padded-IsFinite = record {
  coefficient = record {
    units = omega arith;
    same_length = refl;
    some_digit = omega arith;
    fits = omega arith;
    leading = inr (omega arith);
  };
  plain = refl;
}

fitting : IsFitting debit credit five 0 5
fitting = record {
  precision = refl;
  some_digit = omega arith;
  extended = refl;
  left = debit-IsFinite;
  right = credit-IsFinite;
  left_nonzero = refl;
  right_nonzero = refl;
  above = omega arith;
  below = omega arith;
  fits = omega arith;
}

-- -1.23 + 1.3 is 0.07.
add_op-IsExactSum_example :
    IsExactSum
      (exact_sum debit credit 0)
      (lower debit credit)
      0
      (add_op true false zero_number debit credit five 0 0)
add_op-IsExactSum_example = add_op-IsExactSum false zero_number debit credit five 0 0 5 fitting

seven : exact_sum debit credit 0 ≡ pos 7
seven = refl

-- 12345 and 0.678
abbrev pub whole : DecNumber
whole = record { digits = 5; exponent = pos 0; bits = 0; lsu = 45 ∷ 23 ∷ 1 ∷ [] }

abbrev pub part : DecNumber
part = record { digits = 3; exponent = neg_ℕ 3; bits = 0; lsu = 78 ∷ 6 ∷ [] }

pub whole-IsFinite : IsFinite whole
unfolding d2u
whole-IsFinite = record {
  coefficient = record {
    units = omega arith;
    same_length = refl;
    some_digit = omega arith;
    fits = omega arith;
    leading = inr (omega arith);
  };
  plain = refl;
}

pub part-IsFinite : IsFinite part
unfolding d2u
part-IsFinite = record {
  coefficient = record {
    units = omega arith;
    same_length = refl;
    some_digit = omega arith;
    fits = omega arith;
    leading = inr (omega arith);
  };
  plain = refl;
}

rounding : IsRounding whole part five 0 4 2
rounding = record {
  precision = refl;
  extended = refl;
  left = whole-IsFinite;
  right = part-IsFinite;
  left_nonzero = refl;
  right_nonzero = refl;
  near = omega arith;
  above = omega arith;
  below = omega arith;
  long = omega arith;
  short = omega arith;
}

-- 12345.678 is rounded to 12346.
add_op-IsRoundedSum_example :
    IsRoundedSum
      (exact_sum whole part 0)
      4
      2
      Rounding.half_even
      (lower whole part).exponent
      (add_op true false zero_number whole part five 0 0)
add_op-IsRoundedSum_example = add_op-IsRoundedSum false zero_number whole part five 0 0 4 2 rounding

up : round_quotient Rounding.half_even false 12345678 1000 ≡ 12346
unfolding round_quotient rounds_up
up = refl

compare_op-IsSignum_example :
    IsSignum
      (order_ℤ
        (amount false debit (aligned debit credit))
        (amount false credit (aligned credit debit)))
      0
      (compare_op true zero_number debit credit five CompareOp.compare 0)
compare_op-IsSignum_example =
    compare_op-IsSignum zero_number debit credit five 0 refl debit-IsFinite credit-IsFinite
      (omega arith, omega arith)

compare_total-IsSignum_example :
    IsSignum
      (total_order padded credit)
      0
      (compare_op true zero_number padded credit five CompareOp.comptotal 0)
compare_total-IsSignum_example =
    compare_total-IsSignum zero_number padded credit five 0 refl padded-IsFinite credit-IsFinite
      (omega arith, omega arith)

-- 1.30 comes before 1.3.
before : total_order padded credit ≡ neg_ℕ 1
before = refl

compare_total_flip_example :
    signed (compare_op true zero_number credit padded five CompareOp.comptotal 0).number
    ≡ neg (signed (compare_op true zero_number padded credit five CompareOp.comptotal 0).number)
compare_total_flip_example =
    compare_total_flip zero_number padded credit five 0 refl padded-IsFinite credit-IsFinite
      (omega arith, omega arith)

same : signed (compare_op true zero_number credit credit five CompareOp.comptotal 0).number ≡ pos 0
same =
    (compare_total-IsSignum zero_number credit credit five 0 refl credit-IsFinite credit-IsFinite
      (omega arith, omega arith)).total

compare_total_zero_example :
    (is_negative credit ≡ is_negative credit)
    × ((credit.exponent ≡ credit.exponent) × (value credit.lsu ≡ value credit.lsu))
compare_total_zero_example =
    compare_total_zero zero_number credit credit five 0 refl credit-IsFinite credit-IsFinite
      (omega arith, omega arith) same

padded-IsHeld : IsHeld padded five 5
padded-IsHeld = record {
  finite = padded-IsFinite;
  short = omega arith;
  above = omega arith;
  below = omega arith;
}

credit-IsHeld : IsHeld credit five 5
credit-IsHeld = record {
  finite = credit-IsFinite;
  short = omega arith;
  above = omega arith;
  below = omega arith;
}

compare_op-IsExtreme_example :
    ((compare_op true zero_number padded credit five CompareOp.compmax 0
        ≡ record { number = padded; status = 0 })
      × IsExtreme CompareOp.compmax padded credit)
    ⊎ ((compare_op true zero_number padded credit five CompareOp.compmax 0
          ≡ record { number = credit; status = 0 })
        × IsExtreme CompareOp.compmax credit padded)
compare_op-IsExtreme_example =
    compare_op-IsExtreme zero_number padded credit five CompareOp.compmax 0 5 refl refl
      (omega arith) padded-IsHeld credit-IsHeld refl

-- A signalling NaN with the payload 1003.
abbrev signalling : DecNumber
signalling = record { digits = 4; exponent = pos 0; bits = 0x10; lsu = 3 ∷ 10 ∷ [] }

propagate_nan_lem_example : IsQuieted signalling 3 (propagate_nan signalling 3)
unfolding d2u
propagate_nan_lem_example =
    propagate_nan_lem signalling 3
      (record {
        units = omega arith;
        same_length = refl;
        some_digit = omega arith;
        fits = omega arith;
        leading = inr (omega arith);
      })
      (omega arith) (omega arith)

add-IsQuietSum_example :
    IsQuietSum
      (exact_sum debit credit 0)
      (lower debit credit)
      five
      (add true false zero_number debit credit five)
add-IsQuietSum_example = add-IsQuietSum false zero_number debit credit five 5 fitting

-- -1.23 - 1.3 is -2.53.
apart : IsFitting debit credit five neg_bit 5
apart = record {
  precision = refl;
  some_digit = omega arith;
  extended = refl;
  left = debit-IsFinite;
  right = credit-IsFinite;
  left_nonzero = refl;
  right_nonzero = refl;
  above = omega arith;
  below = omega arith;
  fits = omega arith;
}

subtract-IsQuietSum_example :
    IsQuietSum
      (exact_sum debit credit neg_bit)
      (lower debit credit)
      five
      (subtract true false zero_number debit credit five)
subtract-IsQuietSum_example = subtract-IsQuietSum false zero_number debit credit five 5 apart

difference : exact_sum debit credit neg_bit ≡ neg_ℕ 253
difference = refl
