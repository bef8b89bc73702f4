-- ===== src/Units/Shift/Spread.antt =====
-- What the loop of decShiftToMost leaves: values and lengths of padded, spread and cut arrays.
use cpp_decimal.Base.{ℕ, zero, suc, ◌+◌, ◌*◌, ◌/◌, ◌^◌, ◌<◌, ◌≤◌, ◌≡◌, refl, arith, ◌∙◌, ap}
use cpp_decimal.Base.{List, [], ◌∷◌, ◌++◌, take, drop, replicate, length, pow-suc}
use cpp_decimal.Base.{length-append, length-replicate}
use cpp_decimal.Units.{value, IsUnits, quot10, quot10_one}
use cpp_decimal.Units.Shift.{spread}

-- An odd shift moves each digit into the next place.
pub spread-value :
    (us : List ℕ) (below : ℕ)
    → IsUnits us
    → below < 10
    → value (spread 1 us below) ≡ below + 10 * value us
unfolding spread
spread-value [] below hu h = omega arith
spread-value (u ∷ us) below hu h =
    rw (quot10_one u (omega (arith, hu.0)))
      (omega (arith, hu.0, spread-value us (u / 10) hu.1 (omega (arith, hu.0))))

pub length-spread : (us : List ℕ) (below : ℕ) → length (spread 1 us below) ≡ suc (length us)
unfolding spread
length-spread [] below = refl
length-spread (u ∷ us) below = omega (arith, length-spread us (quot10 u 1))

pub zeros-value : (n : ℕ) (us : List ℕ) → value (replicate n 0 ++ us) ≡ 100 ^ n * value us
zeros-value zero us = omega arith
zeros-value (suc n) us = rw (pow-suc 100 n) (regroup (100 ^ n) (value us) _ (zeros-value n us))
  where
    regroup : (p v z : ℕ) → z ≡ p * v → 0 + 100 * z ≡ p * 100 * v
    regroup p v z e = grind arith

value-take : (n : ℕ) (us : List ℕ) → value us ≡ value (take n us) + 100 ^ n * value (drop n us)
value-take zero us = omega arith
value-take (suc n) [] = grind arith
value-take (suc n) (u ∷ us) =
    rw (pow-suc 100 n) (regroup u (100 ^ n) (value (drop n us)) _ _ (value-take n us))
  where
    regroup : (u p d t v : ℕ) → v ≡ t + p * d → u + 100 * v ≡ u + 100 * t + p * 100 * d
    regroup u p d t v e = grind arith

-- The units above a bound on the value are 0.
pub value-take_all : (n : ℕ) (us : List ℕ) → value us < 100 ^ n → value (take n us) ≡ value us
value-take_all n us h =
    none_above (value us) (100 ^ n) (value (take n us)) (value (drop n us)) h (value-take n us)
  where
    at_least : (p d : ℕ) → p ≤ p * suc d
    at_least p d = grind arith

    none_above : (v p t d : ℕ) → v < p → v ≡ t + p * d → t ≡ v
    none_above v p t zero h e = omega (arith, e)
    none_above v p t (suc d) h e = absurd (omega (arith, e, h, at_least p d))

pub pow_even : (k : ℕ) → 10 ^ (2 * k) ≡ 100 ^ k
pow_even zero = refl
pow_even (suc k) =
    rw (twice k)
      (omega (arith, pow-suc 10 (suc (2 * k)), pow-suc 10 (2 * k), pow-suc 100 k, pow_even k))
  where
    twice : (k : ℕ) → 2 * suc k ≡ suc (suc (2 * k))
    twice k = omega arith

pub length-padded : (k : ℕ) (us : List ℕ) → length (replicate k 0 ++ us) ≡ k + length us
length-padded k us =
    length-append (replicate k 0) us ∙ ap (λ n. n + length us) (length-replicate k 0)
