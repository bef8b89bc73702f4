-- ===== src/Number/Digits/Laws.antt =====
-- decGetDigits gives the length of the number in digits.
use cpp_decimal.Base.{ℕ, suc, ◌+◌, ◌*◌, ◌/◌, ◌^◌, ◌≤◌, ◌<◌, ◌≡◌, ◌⊎◌, inl, inr, refl, arith, ap}
use cpp_decimal.Base.{List, [], ◌∷◌, length, pow-suc, none, some, one-le-pow}
use native.Mathlib.Decide.{ℕ_discrete, dec_lt}
use cpp_decimal.Number.{IsCoefficient}
use cpp_decimal.Number.Digits.{scan_digits, get_digits}
use cpp_decimal.Units.{value, IsUnits, d2u-eq}
use cpp_decimal.Units.Compare.Laws.{IsTrimmed, le-value}

-- Where the scan stops: `more` digits above the first position.
pub record Stops (us : List ℕ) (digits : ℕ) : Type 0 where
  pub more : ℕ
  pub stop : scan_digits us digits ≡ some (digits + more)
  pub above : 10 ^ more ≤ value us
  pub below : value us < 10 ^ suc more
  pub units : IsTrimmed us → length us ≡ more / 2 + 1

top_or_more : (u : ℕ) (us : List ℕ) → IsTrimmed (u ∷ us) → (us ≡ []) ⊎ IsTrimmed us
top_or_more u [] h = inl refl
top_or_more u (v ∷ us) h = inr h

-- An array whose higher units are 0 has one unit, when it is trimmed.
one_unit : (u : ℕ) (us : List ℕ) → value us ≡ 0 → IsTrimmed (u ∷ us) → length (u ∷ us) ≡ 1
one_unit u us e h = elim (top_or_more u us h) [
  | inl none_left ↦ rw none_left refl
  | inr t ↦ absurd (omega (arith, le-value us t, one-le-pow (length us) 100 (omega arith)))
]

more_units :
    (u : ℕ) (us : List ℕ) (n : ℕ)
    → 1 ≤ value us
    → (IsTrimmed us → length us ≡ n)
    → IsTrimmed (u ∷ us)
    → length (u ∷ us) ≡ n + 1
more_units u us n p f h = elim (top_or_more u us h) [
  | inl none_left ↦ absurd (omega (arith, ap value none_left))
  | inr t ↦ omega (arith, f t)
]

pub scan_lem :
    (us : List ℕ)
    → IsUnits us
    → (digits : ℕ) → ((scan_digits us digits ≡ none) × (value us ≡ 0)) ⊎ Stops us digits
unfolding scan_digits
scan_lem [] hu digits = inl (refl, refl)
scan_lem (u ∷ us) hu digits = elim (scan_lem us hu.1 (digits + 2)) [
  | inl zeros ↦ elim (ℕ_discrete u 0) [
    | yes e ↦ inl (ground (arith, zeros.0), omega (arith, zeros.1))
    | no ne ↦ elim (dec_lt u 10) [
      | yes one ↦ inr (record {
        more = 0;
        stop = ground (arith, zeros.0);
        above = omega (arith, zeros.1);
        below = omega (arith, zeros.1);
        units = λ h. one_unit u us zeros.1 h;
      })
      | no two ↦ inr (record {
        more = 1;
        stop = ground (arith, zeros.0);
        above = omega (arith, zeros.1);
        below = omega (arith, zeros.1, hu.0);
        units = λ h. one_unit u us zeros.1 h;
      })
    ]
  ]
  | inr found ↦ inr (record {
    more = suc (suc found.more);
    stop = rw found.stop (ap some (omega arith));
    above = omega (arith, found.above, pow-suc 10 (suc found.more), pow-suc 10 found.more);
    below =
        omega (
          arith,
          hu.0,
          found.below,
          pow-suc 10 (suc (suc found.more)),
          pow-suc 10 (suc found.more),
        );
    units = λ h. omega (
      arith,
      more_units u us _ (omega (arith, found.above, one-le-pow found.more 10 (omega arith)))
          found.units h,
    );
  })
]

one_more : (n : ℕ) → 1 + n ≡ suc n
one_more n = omega arith

-- `digits` is the length of `n` in decimal digits; 0 has one.
pub record IsDigits (n digits : ℕ) : Type 0 where
  pub some_digit : 0 < digits
  pub fits : n < 10 ^ digits
  pub leading : (digits ≡ 1) ⊎ (10 ^ digits ≤ 10 * n)

-- decGetDigits, on units of two digits: one digit for 0, and otherwise the number has that many digits.
pub get_digits_lem : (us : List ℕ) → IsUnits us → IsDigits (value us) (get_digits us)
unfolding get_digits
get_digits_lem us hu = elim (scan_lem us hu 1) [
  | inl zeros ↦
      rw (get_digits, zeros.0, zeros.1)
        (record { some_digit = omega arith; fits = omega arith; leading = inl refl })
  | inr found ↦
      rw (get_digits, found.stop, one_more found.more)
        (record {
          some_digit = omega arith;
          fits = found.below;
          leading = inr (omega (arith, found.above, pow-suc 10 found.more));
        })
]

-- A trimmed array with its digits is a coefficient.
pub get_digits-IsCoefficient :
    (us : List ℕ) → IsUnits us → IsTrimmed us → IsCoefficient (get_digits us) us
unfolding get_digits
get_digits-IsCoefficient us hu ht = elim (scan_lem us hu 1) [
  | inl zeros ↦
      absurd (omega (arith, zeros.1, le-value us ht, one-le-pow (length us) 100 (omega arith)))
  | inr found ↦
      rw (get_digits, found.stop, one_more found.more)
        (record {
          units = hu;
          same_length = omega (arith, d2u-eq (suc found.more), found.units ht);
          some_digit = omega arith;
          fits = found.below;
          leading = inr (omega (arith, found.above, pow-suc 10 found.more));
        })
]
