-- ===== src/Tests/SignTests.antt =====
-- The quiet sign operations and the class of a number, of src/decNumber.c, at concrete inputs.
use cpp_decimal.Base.{◌≡◌, ◌==◌, refl, arith, true, false, not, [], ◌∷◌, inr}
use cpp_decimal.Base.Int.{pos, neg_ℕ}
use cpp_decimal.Context.{DecContext, Rounding}
use cpp_decimal.Number.{DecNumber, IsCoefficient, is_negative, zero_number}
use cpp_decimal.Number.Class.{DecClass, is_normal, number_class}
use cpp_decimal.Number.Class.Laws.{class_of, reaches_least, number_class_lem}
use cpp_decimal.Number.Sign.{copy_abs, copy_negate, copy_sign}
use cpp_decimal.Number.Sign.Laws.{IsSigned, copy_signs_lem}
use cpp_decimal.Units.{value, d2u}

-- decimal32
abbrev small : DecContext
small = record {
  digits = pos 7;
  emax = pos 96;
  emin = neg_ℕ 95;
  round = Rounding.half_even;
  traps = 0;
  status = 0;
  clamp = true;
  extended = true;
}

-- -1.23E-98
abbrev tiny : DecNumber
tiny = record { digits = 3; exponent = neg_ℕ 100; bits = 0x80; lsu = 23 ∷ 1 ∷ [] }

tiny-IsCoefficient : IsCoefficient 3 tiny.lsu
unfolding d2u
tiny-IsCoefficient = record {
  units = omega arith;
  same_length = refl;
  some_digit = omega arith;
  fits = omega arith;
  leading = inr (omega arith);
}

copy_signs_lem_example :
    IsSigned (copy_abs tiny) tiny false
    × IsSigned (copy_negate tiny) tiny (not (is_negative tiny))
    × IsSigned (copy_sign tiny zero_number) tiny (is_negative zero_number)
copy_signs_lem_example = copy_signs_lem tiny zero_number tiny-IsCoefficient (omega arith)

number_class_lem_example :
    number_class tiny small
    ≡ class_of (value tiny.lsu == 0) (reaches_least tiny small) (is_negative tiny)
number_class_lem_example =
    number_class_lem tiny small (record { coefficient = tiny-IsCoefficient; plain = refl })

-- Which is a negative subnormal number.
tiny_class : number_class tiny small ≡ DecClass.neg_subnormal
unfolding number_class is_normal
tiny_class = refl
