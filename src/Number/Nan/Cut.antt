-- ===== src/Number/Nan/Cut.antt =====
-- The payload of a NaN, cut by decNaNs to the precision.
use cpp_decimal.Base.{
  ℕ, zero, suc, ◌+◌, ◌-◌, ◌*◌, ◌/◌, ◌%◌, ◌^◌, ◌≤◌, ◌<◌, ◌≡◌, ◌≢◌, inl, inr, refl, arith, sym, ◌∙◌,
}
use cpp_decimal.Base.{
  true, false, length, ◌⊎◌, pow-suc, ltb, leb, List, [], ◌∷◌, Bool-cases, one-le-pow,
}
use cpp_decimal.Number.{DecNumber, IsCoefficient}
use cpp_decimal.Number.Digits.{recount}
use cpp_decimal.Number.Digits.Laws.{IsDigits}
use cpp_decimal.Number.Digits.Recount.{recount-IsCounted, recount-bits}
use cpp_decimal.Number.Nan.{cap_units, cut_payload, decap}
use cpp_decimal.Round.Coeff.{copy_units}
use cpp_decimal.Round.Coeff.Laws.{length-copy_units}
use cpp_decimal.Round.Correct.{ten-add}
use cpp_decimal.Units.{value, IsUnits, d2u, d2u-eq}
use cpp_decimal.Units.Shift.Spread.{pow_even}
use native.Mathlib.Nat.{pow-le-pow_right}
use native.Mathlib.Decide.{dec_lt}
use cpp_decimal.Number.Nan.Payload.{mod_tenth, copy_units_mod, cap_units_mod}

copy_units-ne : (count : ℕ) (us : List ℕ) → us ≢ [] → 0 < count → copy_units count us ≢ []
unfolding copy_units
copy_units-ne zero us ne h = absurd (omega arith)
copy_units-ne (suc count) [] ne h = ne
copy_units-ne (suc zero) (u ∷ us) ne h = λ e. cc e
copy_units-ne (suc (suc count)) (u ∷ us) ne h = λ e. cc e

cap_units-ne : (count : ℕ) (us : List ℕ) → 0 < count → us ≢ [] → cap_units count us ≢ []
unfolding cap_units
cap_units-ne zero us h ne = absurd (omega arith)
cap_units-ne (suc count) [] h ne = absurd (ne refl)
cap_units-ne (suc zero) (u ∷ us) h ne = λ e. cc e
cap_units-ne (suc (suc zero)) (u ∷ us) h ne = λ e. cc e
cap_units-ne (suc (suc (suc count))) (u ∷ us) h ne = λ e. cc e

-- A payload cut to `p` digits.
pub record IsCut (source : DecNumber) (p : ℕ) (dn : DecNumber) : Type 0 where
  pub total : value dn.lsu ≡ value source.lsu % 10 ^ p
  pub units : IsUnits dn.lsu
  pub bits : dn.bits ≡ source.bits
  pub same_length : length dn.lsu ≡ d2u dn.digits
  pub short : dn.digits ≤ p
  pub digits :
      ((p % 2 ≡ 0) × (p < source.digits) × (dn.digits ≡ p)) ⊎ IsDigits (value dn.lsu) dn.digits

mod_below : (v m : ℕ) → 0 < m → v % m < m
mod_below v m h = grind arith

-- A number below a power of ten has no more digits than that.
digits_fit : (v n p : ℕ) → (n ≡ 1) ⊎ (10 ^ n ≤ 10 * v) → v < 10 ^ p → 0 < p → n ≤ p
digits_fit v n p l h k = elim (dec_lt p n) [
  | no le ↦ omega (arith, le)
  | yes lt ↦ absurd (too_many l lt)
]
  where
    too_many : (n ≡ 1) ⊎ (10 ^ n ≤ 10 * v) → p < n → ⊥
    too_many (inl one) lt = omega (arith, one, k)
    too_many (inr l) lt =
        omega (arith, h, l, pow-le-pow_right {n = 10} (omega arith) lt, pow-suc 10 p)

pub cut_payload-IsCut :
    (source : DecNumber) (p : ℕ)
    → IsCoefficient source.digits source.lsu
    → source.lsu ≢ []
    → 0 < p
    → p < source.digits
    → IsCut source p (cut_payload source p)
unfolding cut_payload decap
cut_payload-IsCut source p c ne hp long =
    let hu = c.units in
    elim (Bool-cases (ltb p (d2u p * 2))) [
      | inl odd ↦
          let safe = copy_units_mod (d2u p * 2) source.lsu hu in
          let cap = cap_units_mod p (copy_units (d2u p * 2) source.lsu) (safe.1) in
          let length_eq : d2u p * 2 ≡ p + 1 = odd_digits p (d2u p) (d2u-eq p) odd in
          let some_left : leb (d2u p * 2) (d2u p * 2 - p) ≡ false = rw length_eq (above p hp) in
          let all : d2u p * 2 - (d2u p * 2 - p) ≡ p = rw length_eq (omega arith) in
          let capped : DecNumber = record source {
            digits = d2u p * 2;
            lsu = cap_units p (copy_units (d2u p * 2) source.lsu);
          } in
          let n =
            recount-IsCounted capped
              (cap_units-ne p _ hp
                (copy_units-ne (d2u p * 2) source.lsu ne (omega (arith, length_eq))))
              (cap.1) in
          let total : value (recount capped).lsu ≡ value source.lsu % 10 ^ p =
            n.total
            ∙ cap.0
            ∙ rw (safe.0, safe_power (d2u p), length_eq, one_more p)
                (mod_tenth (value source.lsu) (10 ^ p) (one-le-pow p 10 (omega arith))) in
          rw (odd, some_left, all)
            (record {
              total = total;
              units = n.coefficient.units;
              bits = recount-bits capped;
              same_length = n.coefficient.same_length;
              short =
                  digits_fit _ _ p n.coefficient.leading
                    (rw total (mod_below _ (10 ^ p) (one-le-pow p 10 (omega arith)))) hp;
              digits = inr (record {
                some_digit = n.coefficient.some_digit;
                fits = n.coefficient.fits;
                leading = n.coefficient.leading;
              });
            })
      | inr even ↦
          let safe = copy_units_mod (d2u p * 2) source.lsu hu in
          rw even (record {
            total = safe.0 ∙ rw (safe_power (d2u p), even_digits p (d2u p) (d2u-eq p) even) refl;
            units = safe.1;
            bits = refl;
            same_length =
                length-copy_units (d2u p * 2) source.lsu (
                  enough p (d2u p) source.digits (length source.lsu) (d2u-eq p)
                    (c.same_length ∙ d2u-eq source.digits) long)
                ∙ sym (d2u-eq (d2u p * 2));
            short = omega (arith, even_digits p (d2u p) (d2u-eq p) even);
            digits = inl (
                (
                  omega (arith, even_digits p (d2u p) (d2u-eq p) even),
                  long,
                  even_digits p (d2u p) (d2u-eq p) even,
                ));
          })
    ]
  where
    safe_power : (k : ℕ) → 100 ^ ((k * 2 + 1) / 2) ≡ 10 ^ (k * 2)
    safe_power k = rw (half k, double k) (sym (pow_even k))
      where
        half : (k : ℕ) → (k * 2 + 1) / 2 ≡ k
        half k = omega arith

        double : (k : ℕ) → k * 2 ≡ 2 * k
        double k = omega arith

    odd_digits : (p n : ℕ) → n ≡ (p + 1) / 2 → ltb p (n * 2) ≡ true → n * 2 ≡ p + 1
    odd_digits p n e h = ground (arith, e, h)

    even_digits : (p n : ℕ) → n ≡ (p + 1) / 2 → ltb p (n * 2) ≡ false → n * 2 ≡ p
    even_digits p n e h = ground (arith, e, h)

    above : (p : ℕ) → 0 < p → leb (p + 1) (p + 1 - p) ≡ false
    above p h = ground (arith, h)

    enough : (p n d l : ℕ) → n ≡ (p + 1) / 2 → l ≡ (d + 1) / 2 → p < d → (n * 2 + 1) / 2 ≤ l
    enough p n d l e f h = omega (arith, e, f, h)

    one_more : (p : ℕ) → 10 ^ (p + 1) ≡ 10 * 10 ^ p
    one_more p = omega (arith, ten-add p 1)
