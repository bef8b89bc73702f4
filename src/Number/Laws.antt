-- ===== src/Number/Laws.antt =====
-- Facts on numbers with a valid coefficient: zeros, units and sign bits.
use cpp_decimal.Base.{
  ℕ, zero, suc, ◌+◌, ◌*◌, ◌/◌, ◌^◌, ◌≤◌, ◌<◌, ◌≡◌, ◌≢◌, ◌⊎◌, inl, inr, refl, arith, ap,
}
use cpp_decimal.Base.{false, List, [], ◌∷◌, length, pow-suc, ◌==◌, has, bit_or, bit_and}
use cpp_decimal.Base.{
  bit_and-bit_or, zero-bit_or, bit, bit-bit_and, bit-bit_or, bit_and-power, bit-lt, one-le-pow,
  bit_and_step, bit_and-one,
}
use native.Mathlib.Decide.{ℕ_discrete}
use cpp_decimal.Number.{DecNumber, IsCoefficient, is_zero, is_special, special_bits, first_unit}
use cpp_decimal.Number.{inf_bit, neg_bit, nan_bit, snan_bit}
use cpp_decimal.Units.{value, IsUnits, d2u-eq}
use cpp_decimal.Units.Compare.Laws.{IsTrimmed, ten_within}

-- A finite number has no infinity bit.
pub inf_bit-clear : (bits : ℕ) → has bits special_bits ≡ false → bit 6 bits ≡ 0
inf_bit-clear bits h = ground (arith, bit-bit_and 6 bits special_bits, bit-lt 6 bits)

pub either_infinite :
    (a b : ℕ)
    → has a special_bits ≡ false
    → has b special_bits ≡ false
    → has (bit_or a b) inf_bit ≡ false
either_infinite a b h k =
    ground
      (arith, bit_and-power 6 (bit_or a b), bit-bit_or 6 a b, inf_bit-clear a h, inf_bit-clear b k)

-- Where neither operand is special, their merged bits are not.
pub either_special :
    (a b : ℕ)
    → has a special_bits ≡ false
    → has b special_bits ≡ false
    → has (bit_or a b) special_bits ≡ false
either_special a b h k =
    ground (arith, bit_and-bit_or 7 a b special_bits (omega arith), zero-bit_or 0, h, k)

-- The two bits of the NaNs.
nan_mask : (a : ℕ) → bit_and a 48 ≡ bit 5 a * 32 + bit 4 a * 16
nan_mask a = omega (
  arith,
  bit_and_step a 48,
  bit_and_step (a / 2) 24,
  bit_and_step (a / 2 / 2) 12,
  bit_and_step (a / 2 / 2 / 2) 6,
  bit_and_step (a / 2 / 2 / 2 / 2) 3,
  bit_and-one (a / 2 / 2 / 2 / 2 / 2),
)

-- Where neither operand is special, none is a NaN.
pub either_nan :
    (a b : ℕ)
    → has a special_bits ≡ false
    → has b special_bits ≡ false
    → has (bit_or a b) (bit_or snan_bit nan_bit) ≡ false
either_nan a b h k =
    let e = either_special a b h k in
    ground (
      arith,
      nan_mask (bit_or a b),
      bit-bit_and 5 (bit_or a b) special_bits,
      bit-bit_and 4 (bit_or a b) special_bits,
      bit-lt 5 (bit_or a b),
      bit-lt 4 (bit_or a b),
      e,
    )

-- The sign bit alone.
pub sign_cases : (bits : ℕ) → (bit_and bits neg_bit ≡ 0) ⊎ (bit_and bits neg_bit ≡ neg_bit)
sign_cases bits = by_bit (bit 7 bits) refl (bit-lt 7 bits)
  where
    by_bit :
        (b : ℕ)
        → bit 7 bits ≡ b
        → b < 2
        → (bit_and bits neg_bit ≡ 0) ⊎ (bit_and bits neg_bit ≡ neg_bit)
    by_bit zero e h = inl (omega (arith, bit_and-power 7 bits, e))
    by_bit (suc zero) e h = inr (omega (arith, bit_and-power 7 bits, e))
    by_bit (suc (suc b)) e h = absurd (omega arith)

first_unit-le : (us : List ℕ) → first_unit us ≤ value us
first_unit-le [] = omega arith
first_unit-le (u ∷ us) = omega arith

value_one_digit : (us : List ℕ) → length us ≡ 1 → value us ≡ first_unit us
value_one_digit [] e = absurd (omega arith)
value_one_digit (u ∷ []) e = omega arith
value_one_digit (u ∷ v ∷ us) e = absurd (omega arith)

-- The zero test is right for a finite number.
pub is_zero-eq :
    (dn : DecNumber)
    → IsCoefficient dn.digits dn.lsu
    → is_special dn ≡ false
    → is_zero dn ≡ (value dn.lsu == 0)
is_zero-eq dn c f = rw f (elim (ℕ_discrete dn.digits 1) [
  | yes one ↦ ground (arith, value_one_digit dn.lsu, c.same_length, d2u-eq dn.digits)
  | no more ↦ ground (arith, c.leading, one-le-pow dn.digits 10 (omega arith))
])

IsTrimmed-of :
    (us : List ℕ) → us ≢ [] → IsUnits us → 100 ^ length us ≤ 100 * value us → IsTrimmed us
IsTrimmed-of [] ne hu h = absurd (ne refl)
IsTrimmed-of (u ∷ []) ne hu h = omega arith
IsTrimmed-of (u ∷ v ∷ us) ne hu h =
    IsTrimmed-of (v ∷ us) (λ e. cc e) hu.1
      (omega (arith, hu.0, pow-suc 100 (length (v ∷ us)), pow-suc 100 (length us)))

-- The array of a number that is not 0 has no leading zero unit.
pub coefficient-IsTrimmed :
    (digits : ℕ) (lsu : List ℕ) → IsCoefficient digits lsu → value lsu ≢ 0 → IsTrimmed lsu
coefficient-IsTrimmed digits lsu c nz =
    IsTrimmed-of lsu (λ e. nz (ap value e)) c.units (rw count bound)
  where
    count : length lsu ≡ (digits + 1) / 2
    count = omega (arith, c.same_length, d2u-eq digits)

    by_leading :
        (digits ≡ 1) ⊎ (10 ^ digits ≤ 10 * value lsu) → 100 ^ ((digits + 1) / 2) ≤ 100 * value lsu
    by_leading (inl e) = rw e (omega (arith, nz))
    by_leading (inr h) = omega (arith, h, ten_within digits)

    bound : 100 ^ ((digits + 1) / 2) ≤ 100 * value lsu
    bound = by_leading c.leading
