-- ===== src/Number/Nan/Payload.antt =====
-- The last digits of a payload: what the copies of decNaNs and decDecap leave.
use cpp_decimal.Base.{ℕ, zero, suc, ◌+◌, ◌*◌, ◌/◌, ◌%◌, ◌^◌, ◌<◌, ◌≡◌, arith, sym}
use cpp_decimal.Base.{List, [], ◌∷◌, pow-suc, one-le-pow}
use cpp_decimal.Number.Nan.{cap_units}
use cpp_decimal.Round.Coeff.{copy_units}
use cpp_decimal.Round.Correct.{division}
use cpp_decimal.Units.{value, IsUnits}

pub mod_small : (v m : ℕ) → v < m → v % m ≡ v
mod_small v m h = (division v 0 m v h (omega arith)).1

-- What a division leaves, and the parts that it puts together.
divided : (v m : ℕ) → 0 < m → (v ≡ v / m * m + v % m) × (v % m < m)
divided v m h = (grind arith, grind arith)

-- The lowest unit stays.
mod_unit : (u v m : ℕ) → u < 100 → 0 < m → (u + 100 * v) % (100 * m) ≡ u + 100 * (v % m)
mod_unit u v m h k =
    let d = divided v m k in
    (division (u + 100 * v) (v / m) (100 * m) (u + 100 * (v % m)) (omega (arith, d.1))
      (omega (arith, d.0, regroup (v / m) m))).1
  where
    regroup : (q m : ℕ) → q * (100 * m) ≡ 100 * (q * m)
    regroup q m = grind arith

pub mod_tenth : (v m : ℕ) → 0 < m → v % (10 * m) % m ≡ v % m
mod_tenth v m k =
    let d = divided v (10 * m) (omega arith) in
    let t = divided (v % (10 * m)) m k in
    sym (
      (division v (v / (10 * m) * 10 + v % (10 * m) / m) m (v % (10 * m) % m) (t.1)
        (omega (arith, d.0, t.0, regroup (v / (10 * m)) (v % (10 * m) / m) m))).1)
  where
    regroup : (q r m : ℕ) → (q * 10 + r) * m ≡ q * (10 * m) + r * m
    regroup q r m = grind arith

zero_mod : (m : ℕ) → 0 < m → 0 % m ≡ 0
zero_mod m h = mod_small 0 m h

pub copy_units_mod :
    (count : ℕ) (us : List ℕ)
    → IsUnits us
    → (value (copy_units count us) ≡ value us % 100 ^ ((count + 1) / 2))
      × IsUnits (copy_units count us)
unfolding copy_units
copy_units_mod zero us hu = (omega arith, tt)
copy_units_mod (suc count) [] hu =
    (sym (zero_mod _ (one-le-pow ((suc count + 1) / 2) 100 (omega arith))), tt)
copy_units_mod (suc zero) (u ∷ us) hu = (omega (arith, hu.0), (hu.0, tt))
copy_units_mod (suc (suc count)) (u ∷ us) hu =
    let rest = copy_units_mod count us hu.1 in
    (
      rw (rest.0, pairs count)
          (sym (
            mod_unit u (value us) (100 ^ ((count + 1) / 2)) hu.0
              (one-le-pow ((count + 1) / 2) 100 (omega arith)))),
      (hu.0, rest.1),
    )
  where
    pair : (n : ℕ) → (suc (suc n) + 1) / 2 ≡ suc ((n + 1) / 2)
    pair n = omega arith

    pairs : (n : ℕ) → 100 ^ ((suc (suc n) + 1) / 2) ≡ 100 * 100 ^ ((n + 1) / 2)
    pairs n = rw (pair n) (omega (arith, pow-suc 100 ((n + 1) / 2)))

pub cap_units_mod :
    (count : ℕ) (us : List ℕ)
    → IsUnits us
    → (value (cap_units count us) ≡ value us % 10 ^ count) × IsUnits (cap_units count us)
unfolding cap_units
cap_units_mod zero us hu = (omega arith, tt)
cap_units_mod (suc count) [] hu = (sym (zero_mod _ (one-le-pow (suc count) 10 (omega arith))), tt)
cap_units_mod (suc zero) (u ∷ us) hu = (omega arith, (omega (arith, hu.0), tt))
cap_units_mod (suc (suc zero)) (u ∷ us) hu = (omega (arith, hu.0), (hu.0, tt))
cap_units_mod (suc (suc (suc count))) (u ∷ us) hu =
    let rest = cap_units_mod (suc count) us hu.1 in
    (
      rw (rest.0, hundred (suc count))
          (sym (
            mod_unit u (value us) (10 ^ suc count) hu.0 (one-le-pow (suc count) 10 (omega arith)))),
      (hu.0, rest.1),
    )
  where
    hundred : (n : ℕ) → 10 ^ suc (suc n) ≡ 100 * 10 ^ n
    hundred n = omega (arith, pow-suc 10 (suc n), pow-suc 10 n)
