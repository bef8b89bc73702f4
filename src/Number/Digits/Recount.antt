-- ===== src/Number/Digits/Recount.antt =====
-- Counting the digits again and leaving out leading zero units gives a valid coefficient of one value.
use cpp_decimal.Base.{ℕ, ◌*◌, ◌^◌, ◌≤◌, ◌<◌, ◌≡◌, ◌≢◌, ◌⊎◌, inl, inr, refl, arith, sym, ◌∙◌}
use cpp_decimal.Base.{List, [], ◌∷◌, length, pow-suc}
use native.Mathlib.Decide.{dec_lt}
use native.Mathlib.Nat.{pow-le-pow_right}
use cpp_decimal.Number.{DecNumber, IsCoefficient}
use cpp_decimal.Round.Coeff.{copy_units}
use cpp_decimal.Number.Digits.{get_digits, recount}
use cpp_decimal.Number.Digits.Laws.{IsDigits, get_digits_lem}
use cpp_decimal.Round.Coeff.Laws.{copy_units_all, copy_units_lem, length-copy_units}
use cpp_decimal.Units.{value, value-lt, IsUnits, d2u-eq}
use cpp_decimal.Units.Shift.Spread.{pow_even}

some_units : (us : List ℕ) → us ≢ [] → 1 ≤ length us
some_units [] ne = absurd (ne refl)
some_units (u ∷ us) ne = omega arith

-- The digits of a number in an array fit that array.
pub digits_within :
    (us : List ℕ) (n : ℕ) → us ≢ [] → IsUnits us → IsDigits (value us) n → n ≤ 2 * length us
digits_within us n ne hu d = elim (dec_lt (2 * length us) n) [
  | no h ↦ omega (arith, h)
  | yes h ↦ absurd (too_many d.leading h)
]
  where
    too_many : (n ≡ 1) ⊎ (10 ^ n ≤ 10 * value us) → 2 * length us < n → ⊥
    too_many (inl e) h = omega (arith, some_units us ne)
    too_many (inr l) h = omega (
      arith,
      pow-le-pow_right {n = 10} (omega arith) h,
      pow-suc 10 (2 * length us),
      pow_even (length us),
      value-lt us hu,
    )

-- What a count of digits leaves.
pub record IsCounted (n : ℕ) (dn : DecNumber) : Type 0 where
  pub total : value dn.lsu ≡ n
  pub coefficient : IsCoefficient dn.digits dn.lsu

pub recount-IsCounted :
    (dn : DecNumber) → dn.lsu ≢ [] → IsUnits dn.lsu → IsCounted (value dn.lsu) (recount dn)
unfolding recount
recount-IsCounted dn ne hu =
    let d = get_digits_lem dn.lsu hu in
    let kept = copy_units_lem (get_digits dn.lsu) dn.lsu hu d.fits in
    record {
      total = kept.0;
      coefficient = record {
        units = kept.1;
        same_length =
            length-copy_units _ dn.lsu (omega (arith, digits_within dn.lsu _ ne hu d))
            ∙ sym (d2u-eq _);
        some_digit = d.some_digit;
        fits = rw kept.0 d.fits;
        leading = rw kept.0 d.leading;
      };
    }

pub recount-bits : (dn : DecNumber) → (recount dn).bits ≡ dn.bits
unfolding recount
recount-bits dn = refl

pub recount-exponent : (dn : DecNumber) → (recount dn).exponent ≡ dn.exponent
unfolding recount
recount-exponent dn = refl

-- A number has one count of digits.
digits_below : (v n m : ℕ) → IsDigits v n → IsDigits v m → n ≤ m
digits_below v n m d e = elim (dec_lt m n) [
  | no le ↦ omega (arith, le)
  | yes lt ↦ absurd (too_many d.leading lt)
]
  where
    too_many : (n ≡ 1) ⊎ (10 ^ n ≤ 10 * v) → m < n → ⊥
    too_many (inl one) lt = omega (arith, e.some_digit)
    too_many (inr l) lt =
        omega (arith, e.fits, pow-le-pow_right {n = 10} (omega arith) lt, pow-suc 10 m)

pub one_count : (v n m : ℕ) → IsDigits v n → IsDigits v m → n ≡ m
one_count v n m d e = omega (arith, digits_below v n m d e, digits_below v m n e d)

-- A valid coefficient is counted already.
pub recount_same : (dn : DecNumber) → IsCoefficient dn.digits dn.lsu → recount dn ≡ dn
unfolding recount
recount_same dn c =
    let same : get_digits dn.lsu ≡ dn.digits =
      one_count (value dn.lsu) _ _ (get_digits_lem dn.lsu c.units)
        (record { some_digit = c.some_digit; fits = c.fits; leading = c.leading }) in
    rw (same, copy_units_all dn.digits dn.lsu (sym (c.same_length ∙ d2u-eq dn.digits))) refl

-- The same, of the units themselves.
pub recounted_units :
    (dn : DecNumber)
    → dn.lsu ≢ []
    → IsUnits dn.lsu
    → IsCounted
        (value dn.lsu)
        (record dn { digits = get_digits dn.lsu; lsu = copy_units (get_digits dn.lsu) dn.lsu })
unfolding recount
recounted_units dn ne hu = recount-IsCounted dn ne hu
