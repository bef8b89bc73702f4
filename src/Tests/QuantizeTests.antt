-- ===== src/Tests/QuantizeTests.antt =====
-- Quantize at concrete inputs.
use cpp_decimal.Base.{◌≡◌, arith, refl, true, inr}
use cpp_decimal.Arith.Quantize.{quantize_op}
use cpp_decimal.Arith.Quantize.Correct.{quantized}
use cpp_decimal.Arith.Quantize.Quantized.{IsQuantized, IsQuantizing, quantize_op-IsQuantized}
use cpp_decimal.Base.Int.{neg_ℕ}
use cpp_decimal.Context.{Rounding}
use cpp_decimal.Number.{zero_number}
use cpp_decimal.Round.Spec.{round_quotient, rounds_up}
use cpp_decimal.Tests.ArithTests.{credit, credit-IsFinite, five, debit, debit-IsFinite}

rounding : IsQuantizing debit credit five 5
unfolding round_quotient rounds_up
rounding = record {
  precision = refl;
  some_digit = omega arith;
  precision_max = omega arith;
  digits_max = omega arith;
  extended = refl;
  left = debit-IsFinite;
  right = credit-IsFinite;
  kept = inr (omega arith);
  fits = omega arith;
  above = omega arith;
  below = omega arith;
}

-- -1.23 at the exponent of 1.3 is -1.2.
quantize_op-IsQuantized_example :
    IsQuantized
      (quantized Rounding.half_even debit (neg_ℕ 1))
      (neg_ℕ 1)
      0x80
      (quantize_op true zero_number debit credit five true 0)
quantize_op-IsQuantized_example = quantize_op-IsQuantized zero_number debit credit five 0 5 rounding

twelve : quantized Rounding.half_even debit (neg_ℕ 1) ≡ 12
unfolding round_quotient rounds_up
twelve = refl
