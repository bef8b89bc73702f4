-- ===== src/Units/Shift/Least.antt =====
-- src/decNumber.c: decShiftToLeast, which drops the last digits of a number in an array of units.
use cpp_decimal.Base.{ℕ, zero, suc, ◌+◌, ◌-◌, ◌*◌, ◌/◌, ◌%◌, ◌^◌, ◌<◌, ◌≡◌, arith, ap, sym, ◌∙◌}
use cpp_decimal.Base.{
  true, false, List, [], ◌∷◌, drop, length, length-drop, leb, ◌==◌, one-le-pow, if◌then◌else◌,
  pow-suc,
}
use mathlib.Core.Path.{subst}
use native.Mathlib.Nat.{div-div-eq-div-mul}
use cpp_decimal.Units.Shift.Spread.{pow_even}
use cpp_decimal.Units.{IsUnits, d2u, d2u-eq, msu_digits, powers, quot10, u8, value}

-- The loop where the shift is not of whole units: `quot` is what is left of the unit before, and `count` the digits
-- that are still to come.
pub least_loop : ℕ → ℕ → ℕ → List ℕ → List ℕ
least_loop cut count quot [] = u8 quot ∷ []
least_loop cut count quot (u ∷ us) =
    let next = quot10 u cut in
    let rem = u - next * powers cut in
    let target = u8 (u8 quot + rem * powers (2 - cut)) in
    let left = count - (2 - cut) in
    let rest = least_loop cut (left - cut) next us in
    if leb count (2 - cut)
    then u8 quot ∷ []
    else if leb left cut
    then target ∷ []
    else target ∷ rest

pub least_from : ℕ → ℕ → List ℕ → List ℕ
least_from cut count [] = []
least_from cut count (u ∷ us) = least_loop cut count (quot10 u cut) us

pub shift_to_least : List ℕ → ℕ → List ℕ
shift_to_least us shift =
    let cut = msu_digits shift in
    if shift == 0
    then us
    else if shift == length us * 2
    then 0 ∷ []
    else if cut == 2
    then drop (d2u shift) us
    else least_from cut (length us * 2 - shift) (drop (d2u (shift - cut)) us)

-- The loop at cut 1, from a unit and those above it.
record IsTenth (n : ℕ) (us : List ℕ) : Type 0 where
  total : value us ≡ n / 10
  units : IsUnits us

least_loop-IsTenth :
    (u : ℕ) (us : List ℕ)
    → u < 100
    → IsUnits us
    → IsTenth (u + 100 * value us) (least_loop 1 (2 * length us + 1) (u / 10) us)
unfolding least_loop
least_loop-IsTenth u [] h hu = record { total = omega arith; units = (omega arith, tt) }
least_loop-IsTenth u (v ∷ us) h hu =
    let rest = least_loop-IsTenth v us hu.0 hu.1 in
    rw (go (length us), stay (length us), tenth, again (length us))
      (record {
        total = omega (arith, rest.total, hu.0);
        units = (omega (arith, hu.0), rest.units);
      })
  where
    go : (n : ℕ) → leb (2 * suc n + 1) 1 ≡ false
    go n = ground arith

    stay : (n : ℕ) → leb (2 * suc n + 1 - 1) 1 ≡ false
    stay n = ground arith

    again : (n : ℕ) → 2 * suc n + 1 - 1 - 1 ≡ 2 * n + 1
    again n = omega arith

    tenth : v / 2 * 26215 / 131072 ≡ v / 10
    tenth = omega (arith, hu.0)

-- Whole units are dropped.
value-drop : (k : ℕ) (us : List ℕ) → IsUnits us → value (drop k us) ≡ value us / 100 ^ k
value-drop zero us h = omega arith
value-drop (suc k) [] h = nothing (100 ^ suc k) (one-le-pow (suc k) 100 (omega arith))
  where
    nothing : (p : ℕ) → 0 < p → 0 ≡ 0 / p
    nothing p h = grind arith
value-drop (suc k) (u ∷ us) h =
    value-drop k us h.1
    ∙ ap (λ n. n / 100 ^ k) first
    ∙ div-div-eq-div-mul (u + 100 * value us) 100 (100 ^ k)
    ∙ ap (λ n. (u + 100 * value us) / n) (swap (100 ^ k) ∙ sym (pow-suc 100 k))
  where
    first : value us ≡ (u + 100 * value us) / 100
    first = omega (arith, h.0)

    swap : (p : ℕ) → 100 * p ≡ p * 100
    swap p = omega arith

IsUnits-drop : (k : ℕ) (us : List ℕ) → IsUnits us → IsUnits (drop k us)
IsUnits-drop zero us h = h
IsUnits-drop (suc k) [] h = tt
IsUnits-drop (suc k) (u ∷ us) h = IsUnits-drop k us h.1

-- The digits that are left.
pub record IsQuotient (n : ℕ) (us : List ℕ) : Type 0 where
  pub total : value us ≡ n
  pub units : IsUnits us

least_from-IsQuotient :
    (count : ℕ) (us : List ℕ)
    → IsUnits us
    → count + 1 ≡ 2 * length us
    → IsQuotient (value us / 10) (least_from 1 count us)
unfolding least_from
least_from-IsQuotient count [] h e = absurd (omega (arith, e))
least_from-IsQuotient count (u ∷ us) h e =
    let t = least_loop-IsTenth u us h.0 h.1 in
    rw (same (length us) e, tenth) (record { total = t.total; units = t.units })
  where
    same : (n : ℕ) → count + 1 ≡ 2 * suc n → count ≡ 2 * n + 1
    same n e = omega (arith, e)

    tenth : u / 2 * 26215 / 131072 ≡ u / 10
    tenth = omega (arith, h.0)

least_even :
    (us : List ℕ) (k : ℕ)
    → IsUnits us
    → 2 * k < length us * 2
    → IsQuotient (value us / 10 ^ (2 * k)) (shift_to_least us (2 * k))
unfolding shift_to_least
least_even us zero h short = record { total = omega arith; units = h }
least_even us (suc k) h short =
    rw (some_shift k, not_all (length us) k short, cut k, units k)
      (record {
        total = value-drop (suc k) us h ∙ ap (λ n. value us / n) (sym (pow_even (suc k)));
        units = IsUnits-drop (suc k) us h;
      })
  where
    some_shift : (k : ℕ) → (2 * suc k == 0) ≡ false
    some_shift k = ground arith

    not_all : (n k : ℕ) → 2 * suc k < n * 2 → (2 * suc k == n * 2) ≡ false
    not_all n k h = ground (arith, h)

    cut : (k : ℕ) → (msu_digits (2 * suc k) == 2) ≡ true
    cut k = ground (arith, d2u-eq (2 * suc k))

    units : (k : ℕ) → d2u (2 * suc k) ≡ suc k
    units k = omega (arith, d2u-eq (2 * suc k))

least_odd :
    (us : List ℕ) (k : ℕ)
    → IsUnits us
    → suc (2 * k) < length us * 2
    → IsQuotient (value us / 10 ^ suc (2 * k)) (shift_to_least us (suc (2 * k)))
unfolding shift_to_least
least_odd us k h short =
    let q =
      least_from-IsQuotient (length us * 2 - suc (2 * k)) (drop k us) (IsUnits-drop k us h)
        (count (length us) k short (length-drop k us)) in
    rw (some_shift k, not_all (length us) k short, msu k, units k)
      (record {
        total =
            q.total
            ∙ ap (λ n. n / 10) (value-drop k us h)
            ∙ div-div-eq-div-mul (value us) (100 ^ k) 10
            ∙ ap (λ n. value us / n) (times k);
        units = q.units;
      })
  where
    some_shift : (k : ℕ) → (suc (2 * k) == 0) ≡ false
    some_shift k = ground arith

    not_all : (n k : ℕ) → suc (2 * k) < n * 2 → (suc (2 * k) == n * 2) ≡ false
    not_all n k h = ground (arith, h)

    msu : (k : ℕ) → msu_digits (suc (2 * k)) ≡ 1
    msu k = omega (arith, d2u-eq (suc (2 * k)))

    units : (k : ℕ) → d2u (suc (2 * k) - 1) ≡ k
    units k = omega (arith, d2u-eq (suc (2 * k) - 1))

    count : (n k : ℕ) {m : ℕ} → suc (2 * k) < n * 2 → m ≡ n - k → n * 2 - suc (2 * k) + 1 ≡ 2 * m
    count n k h e = omega (arith, h, e)

    times : (k : ℕ) → 100 ^ k * 10 ≡ 10 ^ suc (2 * k)
    times k = omega (arith, pow_even k, pow-suc 10 (2 * k))

-- decShiftToLeast, where some digits are left: the quotient by the power of ten.
pub shift_to_least-IsQuotient :
    (us : List ℕ) (shift : ℕ)
    → IsUnits us
    → shift < length us * 2
    → IsQuotient (value us / 10 ^ shift) (shift_to_least us shift)
shift_to_least-IsQuotient us shift h short =
    by_parity (shift / 2) (shift % 2) (omega arith) (omega arith)
  where
    by_parity :
        (k r : ℕ)
        → shift ≡ 2 * k + r
        → r < 2
        → IsQuotient (value us / 10 ^ shift) (shift_to_least us shift)
    by_parity k zero e l =
        let s : 2 * k ≡ shift = omega (arith, e) in
        subst (λ n. IsQuotient (value us / 10 ^ n) (shift_to_least us n)) s
          (least_even us k h (omega (arith, e, short)))
    by_parity k (suc zero) e l =
        let s : suc (2 * k) ≡ shift = omega (arith, e) in
        subst (λ n. IsQuotient (value us / 10 ^ n) (shift_to_least us n)) s
          (least_odd us k h (omega (arith, e, short)))
    by_parity k (suc (suc r)) e l = absurd (omega (arith, l))
