-- ===== src/Tests/IntTests.antt =====
-- The conversions of src/decNumber.c to and from a 32-bit integer, and the digit count, at concrete
-- inputs.
use cpp_decimal.Base.{◌≡◌, refl, arith, true, false, [], ◌∷◌, inr, if◌then◌else◌}
use cpp_decimal.Base.Int.{pos, neg_ℕ}
use cpp_decimal.Context.{DecContext, Rounding}
use cpp_decimal.Number.{DecNumber, IsCoefficient}
use cpp_decimal.Number.Digits.{get_digits}
use cpp_decimal.Number.Digits.Laws.{IsDigits, get_digits_lem}
use cpp_decimal.Number.Int32.{from_int32, from_uint32, to_int32, to_uint32, exact, invalid}
use cpp_decimal.Number.Int32.Laws.{fits_int32, fits_uint32, signed, to_int32_lem, to_uint32_lem}
use cpp_decimal.Number.Int32.Store.{to_int32-from_int32, to_uint32-from_uint32}
use cpp_decimal.Units.{value, d2u}

-- A context that traps nothing.
abbrev plain : DecContext
plain = record {
  digits = pos 16;
  emax = pos 384;
  emin = neg_ℕ 383;
  round = Rounding.half_even;
  traps = 0;
  status = 0;
  clamp = true;
  extended = true;
}

-- 2147483648 and its negative.
abbrev above : DecNumber
above = record { digits = 10; exponent = pos 0; bits = 0; lsu = 48 ∷ 36 ∷ 48 ∷ 47 ∷ 21 ∷ [] }

abbrev lowest : DecNumber
lowest = record above { bits = 0x80 }

above-IsCoefficient : IsCoefficient 10 above.lsu
unfolding d2u
above-IsCoefficient = record {
  units = omega arith;
  same_length = refl;
  some_digit = omega arith;
  fits = omega arith;
  leading = inr (omega arith);
}

get_digits_lem_example : IsDigits (value (7 ∷ 30 ∷ 0 ∷ [])) (get_digits (7 ∷ 30 ∷ 0 ∷ []))
get_digits_lem_example = get_digits_lem (7 ∷ 30 ∷ 0 ∷ []) (omega arith)

to_int32_lem_example :
    to_int32 lowest plain
    ≡ (if fits_int32 lowest then exact plain (signed lowest) else invalid plain)
to_int32_lem_example = to_int32_lem lowest plain above-IsCoefficient

-- The lowest Int fits, and its negative does not.
fits_lowest : fits_int32 lowest ≡ true
fits_lowest = refl

fits_above : fits_int32 above ≡ false
fits_above = refl

to_uint32_lem_example :
    to_uint32 above plain
    ≡ (if fits_uint32 above then exact plain (pos (value above.lsu)) else invalid plain)
to_uint32_lem_example = to_uint32_lem above plain above-IsCoefficient

to_int32-from_int32_example :
    to_int32 (from_int32 (neg_ℕ 2147483648)) plain ≡ exact plain (neg_ℕ 2147483648)
to_int32-from_int32_example =
    to_int32-from_int32 (neg_ℕ 2147483648) plain (omega arith) (omega arith)

to_uint32-from_uint32_example :
    to_uint32 (from_uint32 4294967295) plain ≡ exact plain (pos 4294967295)
to_uint32-from_uint32_example = to_uint32-from_uint32 4294967295 plain (omega arith)
