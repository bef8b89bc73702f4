-- ===== src/Number.antt =====
-- src/decNumber.h: the number, its indicator bits and the tests on them. The unit array `lsu` is the
-- list of its units in use, D2U(digits) of them, least significant first. Exponents are integers
-- without bound; the functions that form a difference which can leave 32 bits say where it wraps.
pub mod Laws
pub mod Compare
pub mod Digits
pub mod GetInt
pub mod Trim
pub mod Int32
pub mod Sign
pub mod Class
pub mod Nan
use cpp_decimal.Base.{ℕ, ◌*◌, ◌^◌, ◌<◌, ◌≤◌, ◌≡◌, ◌⊎◌, Bool, not, ◌&&◌, has, bit_or, ◌==◌}
use cpp_decimal.Base.{List, [], ◌∷◌, length}
use cpp_decimal.Base.Int.{ℤ, pos}
use cpp_decimal.Units.{value, IsUnits, d2u}

-- decNumber
pub record DecNumber : Type 0 where
  pub digits : ℕ
  pub exponent : ℤ
  pub bits : ℕ
  pub lsu : List ℕ

-- DECNEG, DECINF, DECNAN, DECSNAN and DECSPECIAL.
abbrev pub neg_bit : ℕ
neg_bit = 0x80

abbrev pub inf_bit : ℕ
inf_bit = 0x40

abbrev pub nan_bit : ℕ
nan_bit = 0x20

abbrev pub snan_bit : ℕ
snan_bit = 0x10

abbrev pub special_bits : ℕ
special_bits = bit_or inf_bit (bit_or nan_bit snan_bit)

abbrev pub is_finite : DecNumber → Bool
is_finite dn = not (has dn.bits special_bits)

abbrev pub is_infinite : DecNumber → Bool
is_infinite dn = has dn.bits inf_bit

abbrev pub is_nan : DecNumber → Bool
is_nan dn = has dn.bits (bit_or nan_bit snan_bit)

abbrev pub is_negative : DecNumber → Bool
is_negative dn = has dn.bits neg_bit

abbrev pub is_qnan : DecNumber → Bool
is_qnan dn = has dn.bits nan_bit

abbrev pub is_snan : DecNumber → Bool
is_snan dn = has dn.bits snan_bit

abbrev pub is_special : DecNumber → Bool
is_special dn = has dn.bits special_bits

-- The unit that `*dn->lsu` reads.
abbrev pub first_unit : List ℕ → ℕ
first_unit [] = 0
first_unit (u ∷ us) = u

abbrev pub is_zero : DecNumber → Bool
is_zero dn = (first_unit dn.lsu == 0) && (dn.digits == 1) && not (has dn.bits special_bits)

-- decNumberZero
abbrev pub zero_number : DecNumber
zero_number = record { digits = 1; exponent = pos 0; bits = 0; lsu = 0 ∷ [] }

-- A coefficient in `digits` digits: the array has D2U(digits) units of two digits, and the leading
-- digit is 0 only in the one-digit zero.
pub record IsCoefficient (digits : ℕ) (lsu : List ℕ) : Type 0 where
  pub units : IsUnits lsu
  pub same_length : length lsu ≡ d2u digits
  pub some_digit : 0 < digits
  pub fits : value lsu < 10 ^ digits
  pub leading : (digits ≡ 1) ⊎ (10 ^ digits ≤ 10 * value lsu)
