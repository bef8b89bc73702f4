-- ===== src/Units/Shift/Laws.antt =====
-- decShiftToMost multiplies by a power of ten.
use cpp_decimal.Base.{ℕ, zero, suc, ◌+◌, ◌-◌, ◌*◌, ◌/◌, ◌%◌, ◌^◌, ◌<◌, ◌≤◌, ◌≡◌, refl, arith, ◌∙◌}
use cpp_decimal.Base.{
  List, [], ◌∷◌, ◌++◌, take, replicate, leb, ◌==◌, length, pow-suc, false, true, Bool-cases, inl,
  inr,
}
use cpp_decimal.Base.{length-take}
use cpp_decimal.Units.Compare.Laws.{ten_within}
use cpp_decimal.Base.{mul_comm}
use mathlib.Core.Path.{subst}
use cpp_decimal.Units.{value, IsUnits, d2u, d2u-eq, msu_digits}
use cpp_decimal.Units.Shift.{spread, scale_first, shift_to_most}
use cpp_decimal.Units.Shift.Spread.{
  value-take_all, pow_even, length-padded, zeros-value, spread-value, length-spread,
}

-- The number in `r` is that in `us` times 10 ^ shift, in the array that its digits need.
pub record IsShifted (us : List ℕ) (digits shift : ℕ) (r : List ℕ × ℕ) : Type 0 where
  pub total : value r.0 ≡ value us * 10 ^ shift
  pub count : r.1 ≡ digits + shift
  pub same_length : length r.0 ≡ d2u r.1

even-total : (us : List ℕ) (k : ℕ) → value (replicate k 0 ++ us) ≡ value us * 10 ^ (2 * k)
even-total us k = rw (pow_even k, zeros-value k us) (mul_comm _ _)

odd-total :
    (us : List ℕ) (k n d : ℕ)
    → IsUnits us
    → value us < 10 ^ d
    → 10 ^ suc d ≤ 100 ^ n
    → value (replicate k 0 ++ take n (spread 1 us 0)) ≡ value us * 10 ^ suc (2 * k)
odd-total us k n d hu h b =
    let whole = spread-value us 0 hu (omega arith) in
    let kept = value-take_all n (spread 1 us 0) (omega (arith, whole, h, b, pow-suc 10 d)) in
    rw (zeros-value k (take n (spread 1 us 0)), kept, whole, pow-suc 10 (2 * k), pow_even k)
      (regroup (100 ^ k) (value us))
  where
    regroup : (p v : ℕ) → p * (0 + 10 * v) ≡ v * (p * 10)
    regroup p v = grind arith

short-total :
    (us : List ℕ)
    → length us ≡ 1
    → value us < 10
    → (value (scale_first 1 us) ≡ value us * 10) × (length (scale_first 1 us) ≡ 1)
unfolding scale_first
short-total [] e h = absurd (omega arith)
short-total (u ∷ []) e h = (omega arith, refl)
short-total (u ∷ v ∷ us) e h = absurd (omega arith)

even-IsShifted :
    (us : List ℕ) (digits k : ℕ)
    → length us ≡ (digits + 1) / 2
    → IsShifted us digits (2 * k) (replicate k 0 ++ us, digits + 2 * k)
even-IsShifted us digits k e = record {
  total = even-total us k;
  count = refl;
  same_length = omega (arith, length-padded k us, d2u-eq (digits + 2 * k), e);
}

odd-IsShifted :
    (us : List ℕ) (digits k : ℕ)
    → IsUnits us
    → value us < 10 ^ digits
    → length us ≡ (digits + 1) / 2
    → let n = (digits + 2) / 2 in
      IsShifted us digits
        (suc (2 * k))
        (replicate k 0 ++ take n (spread 1 us 0), digits + suc (2 * k))
odd-IsShifted us digits k hu h e = record {
  total =
      odd-total us k ((digits + 2) / 2) digits hu h (rw (half digits) (ten_within (suc digits)).0);
  count = refl;
  same_length = omega (
    arith,
    length-padded k (take ((digits + 2) / 2) (spread 1 us 0)),
    length-take ((digits + 2) / 2) (spread 1 us 0),
    length-spread us 0,
    d2u-eq (digits + suc (2 * k)),
    e,
  );
}
  where
    half : (n : ℕ) → (n + 2) / 2 ≡ (suc n + 1) / 2
    half n = omega arith

even_cut : (k : ℕ) → 2 - msu_digits (2 * suc k) ≡ 0
even_cut k = omega (arith, d2u-eq (2 * suc k))

even_units : (k : ℕ) → d2u (2 * suc k) ≡ suc k
even_units k = omega (arith, d2u-eq (2 * suc k))

odd_cut : (k : ℕ) → 2 - msu_digits (suc (2 * k)) ≡ 1
odd_cut k = omega (arith, d2u-eq (suc (2 * k)))

odd_units : (k : ℕ) → d2u (suc (2 * k)) ≡ suc k
odd_units k = omega (arith, d2u-eq (suc (2 * k)))

kept_units : (digits k : ℕ) → d2u (digits + suc (2 * k)) + 1 - suc k ≡ (digits + 2) / 2
kept_units digits k = omega (arith, d2u-eq (digits + suc (2 * k)))

some_shift : (k : ℕ) → (2 * suc k == 0) ≡ false
some_shift k = ground arith

long_shift : (digits k : ℕ) → 0 < digits → leb (digits + 2 * suc k) 2 ≡ false
long_shift digits k h = ground arith

shift_even :
    (us : List ℕ) (digits k : ℕ)
    → 0 < digits
    → length us ≡ (digits + 1) / 2
    → IsShifted us digits (2 * k) (shift_to_most us digits (2 * k))
unfolding shift_to_most
shift_even us digits zero p e = record {
  total = omega arith;
  count = omega arith;
  same_length = omega (arith, e, d2u-eq digits);
}
shift_even us digits (suc k) p e =
    rw (some_shift k, long_shift digits k p, even_cut k, even_units k)
      (even-IsShifted us digits (suc k) e)

some_odd : (k : ℕ) → (suc (2 * k) == 0) ≡ false
some_odd k = ground arith

one_less : (k : ℕ) → suc k - 1 ≡ k
one_less k = omega arith

only_digit : (digits k : ℕ) → 0 < digits → leb (digits + suc (2 * k)) 2 ≡ true → digits ≡ 1
only_digit digits k p h = ground (arith, h)

no_more : (digits k : ℕ) → leb (digits + suc (2 * k)) 2 ≡ true → k ≡ 0
no_more digits k h = ground (arith, h)

bound_ten : (digits : ℕ) → digits ≡ 1 → 10 ^ digits ≡ 10
bound_ten digits e = rw e refl

one_digit : (us : List ℕ) → length us ≡ 1 → value us < 10 → IsShifted us 1 1 (scale_first 1 us, 2)
one_digit us e h = record {
  total = (short-total us e h).0;
  count = refl;
  same_length = omega (arith, (short-total us e h).1, d2u-eq 2);
}

shift_odd :
    (us : List ℕ) (digits k : ℕ)
    → IsUnits us
    → 0 < digits
    → value us < 10 ^ digits
    → length us ≡ (digits + 1) / 2
    → IsShifted us digits (suc (2 * k)) (shift_to_most us digits (suc (2 * k)))
unfolding shift_to_most
shift_odd us digits k hu p h e = elim (Bool-cases (leb (digits + suc (2 * k)) 2)) [
  | inl short ↦
      rw (some_odd k, short, only_digit digits k p short, no_more digits k short)
        (one_digit us (omega (arith, e, only_digit digits k p short))
          (omega (arith, h, bound_ten digits (only_digit digits k p short))))
  | inr long ↦
      rw (some_odd k, long, odd_cut k, odd_units k, kept_units digits k, one_less k)
        (odd-IsShifted us digits k hu h e)
]

-- decShiftToMost on a coefficient of `digits` digits and any shift: the value is multiplied by
-- 10 ^ shift, the count of digits grows by the shift, and the array has the units that they need.
pub shift_to_most_lem :
    (us : List ℕ) (digits shift : ℕ)
    → IsUnits us
    → length us ≡ d2u digits
    → 0 < digits
    → value us < 10 ^ digits
    → IsShifted us digits shift (shift_to_most us digits shift)
shift_to_most_lem us digits shift hu e p h =
    by_parity (shift / 2) (shift % 2) (omega arith) (omega arith)
  where
    by_parity :
        (k r : ℕ)
        → shift ≡ 2 * k + r
        → r < 2
        → IsShifted us digits shift (shift_to_most us digits shift)
    by_parity k zero s l =
        subst (λ n. IsShifted us digits n (shift_to_most us digits n)) (omega (arith, s))
          (shift_even us digits k p (e ∙ d2u-eq digits))
    by_parity k (suc zero) s l =
        subst (λ n. IsShifted us digits n (shift_to_most us digits n)) (omega (arith, s))
          (shift_odd us digits k hu p h (e ∙ d2u-eq digits))
    by_parity k (suc (suc r)) s l = absurd (omega (arith, l))
