-- ===== src/Number/Trim/Laws.antt =====
-- All trailing zeros go, and no other digit.
use cpp_decimal.Base.{
  ℕ, zero, suc, ◌+◌, ◌-◌, ◌*◌, ◌/◌, ◌%◌, ◌^◌, ◌≤◌, ◌≡◌, ◌⊎◌, inl, inr, refl, arith, ap, pow-suc,
  one-le-pow,
}
use cpp_decimal.Base.{if◌then◌else◌, Bool, true, false, List, [], ◌∷◌, ◌==◌, Bool-cases}
use cpp_decimal.Base.Int.{ℤ}
use cpp_decimal.Number.Trim.{trailing_zeros}
use cpp_decimal.Units.{value, IsUnits}

-- The number from the first or the second digit of the first unit on.
abbrev pub value_at : Bool → List ℕ → ℕ
value_at false us = value us
value_at true [] = 0
value_at true (u ∷ us) = u / 10 + 10 * value us

-- The lower digit, where it is passed.
abbrev pub IsPassed : Bool → List ℕ → Type 0
IsPassed false us = Unit {0}
IsPassed true [] = Unit {0}
IsPassed true (u ∷ us) = u % 10 ≡ 0

-- `d` trailing zeros of at most `n`.
pub record IsTail (v n d : ℕ) : Type 0 where
  pub head : ℕ
  pub total : v ≡ head * 10 ^ d
  pub within : d ≤ n
  pub last : (d ≡ n) ⊎ (1 ≤ head % 10)

IsTail-stop : (v n : ℕ) → 1 ≤ v % 10 → IsTail v n 0
IsTail-stop v n h = record { head = v; total = omega arith; within = omega arith; last = inr h }

IsTail-step : (v w n d : ℕ) → v ≡ 10 * w → IsTail w n d → IsTail v (suc n) (suc d)
IsTail-step v w n d e t = record {
  head = t.head;
  total = rw e (grow w t.head (10 ^ d) (10 ^ suc d) (pow-suc 10 d) t.total);
  within = omega (arith, t.within);
  last = more t.last;
}
  where
    grow : (w h p q : ℕ) → q ≡ p * 10 → w ≡ h * p → 10 * w ≡ h * q
    grow w h p q f e = rw (e, f) (grind arith)

    more : (d ≡ n) ⊎ (1 ≤ t.head % 10) → (suc d ≡ suc n) ⊎ (1 ≤ t.head % 10)
    more (inl e) = inl (ap suc e)
    more (inr h) = inr h

pub trailing_zeros-IsTail :
    (n : ℕ) (exp : ℤ) (half : Bool) (us : List ℕ)
    → IsUnits us
    → IsPassed half us
    → 10 ^ n ≤ value_at half us
    → IsTail (value_at half us) n (trailing_zeros true n exp (if half then 2 else 1) us)
unfolding trailing_zeros
trailing_zeros-IsTail zero exp half us hu p h = record {
  head = value_at half us;
  total = omega arith;
  within = omega arith;
  last = inl refl;
}
trailing_zeros-IsTail (suc n) exp false [] hu p h =
    absurd (omega (arith, h, one-le-pow (suc n) 10 (omega arith)))
trailing_zeros-IsTail (suc n) exp true [] hu p h =
    absurd (omega (arith, h, one-le-pow (suc n) 10 (omega arith)))
trailing_zeros-IsTail (suc n) exp false (u ∷ us) hu p h =
    elim (Bool-cases (u - u / 2 * 26215 / 131072 * 10 == 0)) [
      | inl z ↦
          let even : u % 10 ≡ 0 = ground (arith, z, hu.0) in
          rw z (
            IsTail-step (u + 100 * value us) (u / 10 + 10 * value us) n _ (omega (arith, even)) (
              trailing_zeros-IsTail n exp true (u ∷ us) hu even
                (omega (arith, h, even, pow-suc 10 n))))
      | inr nz ↦ rw nz (IsTail-stop (u + 100 * value us) (suc n) (ground (arith, nz, hu.0)))
    ]
trailing_zeros-IsTail (suc n) exp true (u ∷ us) hu p h =
    elim (Bool-cases (u - u / 4 * 5243 / 131072 * 100 == 0)) [
      | inl z ↦
          let none : u ≡ 0 = ground (arith, z, hu.0) in
          rw z (
            IsTail-step (u / 10 + 10 * value us) (value us) n _ (omega (arith, none))
              (trailing_zeros-IsTail n exp false us hu.1 tt (omega (arith, h, none, pow-suc 10 n))))
      | inr nz ↦ rw nz (IsTail-stop (u / 10 + 10 * value us) (suc n) (ground (arith, nz, p, hu.0)))
    ]
