-- ===== src/Tests/RoundTests.antt =====
-- The rounding routines of src/decNumber.c at concrete inputs.
use cpp_decimal.Base.{◌≡◌, refl, arith, true, false, [], ◌∷◌, inr}
use cpp_decimal.Base.Int.{pos, neg_ℕ}
use cpp_decimal.Context.{DecContext, Rounding}
use cpp_decimal.Number.{DecNumber, IsCoefficient, zero_number}
use cpp_decimal.Round.Apply.{apply_round}
use cpp_decimal.Round.Coeff.{copy_fit}
use cpp_decimal.Round.Correct.{copy_fit-apply_round}
use cpp_decimal.Round.Spec.{IsScaled, round_quotient, rounds_up}
use cpp_decimal.Units.{d2u}

-- Three digits, rounding half to even.
abbrev narrow : DecContext
narrow = record {
  digits = pos 3;
  emax = pos 99;
  emin = neg_ℕ 98;
  round = Rounding.half_even;
  traps = 0;
  status = 0;
  clamp = false;
  extended = true;
}

-- 99950, which is half way between two numbers of three digits.
abbrev half_way : DecNumber
half_way = record { digits = 5; exponent = pos 0; bits = 0; lsu = 50 ∷ 99 ∷ 9 ∷ [] }

half_way-IsCoefficient : IsCoefficient 5 half_way.lsu
unfolding d2u
half_way-IsCoefficient = record {
  units = omega arith;
  same_length = refl;
  some_digit = omega arith;
  fits = omega arith;
  leading = inr (omega arith);
}

-- 999|50 goes up to 1000, which is 100 * 10 ^ 3.
copy_fit-apply_round_example :
    let fit = copy_fit zero_number half_way narrow (pos 0) 0 in
    IsScaled
      (round_quotient Rounding.half_even false 99950 100)
      3
      (pos 2)
      0
      (apply_round fit.number narrow fit.residue fit.status).number
copy_fit-apply_round_example =
    copy_fit-apply_round zero_number half_way narrow 0 2 1 refl refl half_way-IsCoefficient
      (omega arith)

-- What that quotient is.
half_way_rounded : round_quotient Rounding.half_even false 99950 100 ≡ 1000
unfolding round_quotient rounds_up
half_way_rounded = refl
