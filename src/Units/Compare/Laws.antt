-- ===== src/Units/Compare/Laws.antt =====
-- decUnitCompare compares the numbers.
use cpp_decimal.Base.{ℕ, zero, suc, ◌+◌, ◌*◌, ◌/◌, ◌%◌, ◌^◌, ◌≤◌, ◌<◌, ◌≡◌, refl, arith, ap}
use cpp_decimal.Base.{Bool, true, false, List, [], ◌∷◌, length, pow-suc, ltb, if◌then◌else◌}
use cpp_decimal.Base.{none, some, ◌⊎◌, inl, inr, one-le-pow, max}
use cpp_decimal.Base.{Bool-cases}
use native.Mathlib.Nat.{pow-le-pow_right}
use cpp_decimal.Base.Int.{ℤ, pos, negsuc, neg_ℕ, ◌+ℤ◌, ◌*ℤ◌}
use cpp_decimal.Units.{value, IsUnits, value-lt, d2u, d2u-eq, powers}
use cpp_decimal.Units.AddSub.{Result, unit_add_sub}
use cpp_decimal.Units.AddSub.Whole.{signed_value, unit_add_sub_lem}
use cpp_decimal.Units.Compare.{compare_down, find_nonzero, unit_compare, accbuff_units}

-- How two numbers compare: -1, 0 or 1.
abbrev pub order : ℕ → ℕ → ℤ
order x y = if ltb y x then pos 1 else if ltb x y then negsuc 0 else pos 0

-- The most significant unit is not 0.
abbrev pub IsTrimmed : List ℕ → Type 0
IsTrimmed [] = ⊥
IsTrimmed (u ∷ []) = 0 < u
IsTrimmed (u ∷ v ∷ us) = IsTrimmed (v ∷ us)

pub le-value : (us : List ℕ) → IsTrimmed us → 100 ^ length us ≤ 100 * value us
le-value [] h = absurd h
le-value (u ∷ []) h = omega arith
le-value (u ∷ v ∷ us) h = omega (arith, le-value (v ∷ us) h, pow-suc 100 (length (v ∷ us)))

-- Powers of 100.
pub hundred-add : (m n : ℕ) → 100 ^ (m + n) ≡ 100 ^ m * 100 ^ n
hundred-add zero n = rw (shift_zero n) (omega arith)
  where
    shift_zero : (n : ℕ) → zero + n ≡ n
    shift_zero n = omega arith
hundred-add (suc m) n = rw (shift m n) (
    omega
      (arith, pow-suc 100 (m + n), hundred-add m n, ap (λ (t : ℕ). t * 100 ^ n) (pow-suc 100 m)))
  where
    shift : (m n : ℕ) → suc m + n ≡ suc (m + n)
    shift m n = omega arith

pub ten-pow : (e : ℕ) → 10 ^ e ≡ 100 ^ (e / 2) * powers (e % 2)
ten-pow zero = refl
ten-pow (suc zero) = refl
ten-pow (suc (suc e)) =
    rw (halve e, parity e)
      (omega (
        arith,
        pow-suc 10 (suc e),
        pow-suc 10 e,
        ten-pow e,
        ap (λ (t : ℕ). t * powers (e % 2)) (pow-suc 100 (e / 2)),
      ))
  where
    halve : (e : ℕ) → suc (suc e) / 2 ≡ suc (e / 2)
    halve e = omega arith

    parity : (e : ℕ) → suc (suc e) % 2 ≡ e % 2
    parity e = omega arith

compare_down-order :
    (a b : List ℕ)
    → IsUnits a
    → IsUnits b
    → length a ≡ length b
    → compare_down a b ≡ order (value a) (value b)
unfolding compare_down
compare_down-order [] [] ha hb e = refl
compare_down-order [] (y ∷ b) ha hb e = absurd (omega arith)
compare_down-order (x ∷ a) [] ha hb e = absurd (omega arith)
compare_down-order (x ∷ a) (y ∷ b) ha hb e = ground (arith, compare_down-order a b ha.1 hb.1)

find_nonzero-order : (us : List ℕ) → find_nonzero us ≡ order (value us) 0
unfolding find_nonzero
find_nonzero-order [] = refl
find_nonzero-order (zero ∷ us) = ground (arith, find_nonzero-order us)
find_nonzero-order (suc u ∷ us) = ground arith

-- Of two arrays without leading zeros the longer one is larger.
longer-order :
    (a b : List ℕ)
    → IsUnits b
    → IsTrimmed a
    → length b < length a
    → order (value a) (value b) ≡ pos 1
longer-order a b hb ta h =
    let bigger = pow-le-pow_right {n = 100} (omega arith) h in
    ground (arith, bigger, le-value a ta, value-lt b hb, pow-suc 100 (length b))

shorter-order :
    (a b : List ℕ)
    → IsUnits a
    → IsTrimmed b
    → length a < length b
    → order (value a) (value b) ≡ negsuc 0
shorter-order a b ha tb h =
    let bigger = pow-le-pow_right {n = 100} (omega arith) h in
    ground (arith, bigger, le-value b tb, value-lt a ha, pow-suc 100 (length a))

-- 10 ^ e within the power of 100 of as many units.
pub ten_within : (e : ℕ) → (10 ^ e ≤ 100 ^ ((e + 1) / 2)) × (100 ^ ((e + 1) / 2) ≤ 10 * 10 ^ e)
ten_within zero = omega arith
ten_within (suc zero) = omega arith
ten_within (suc (suc e)) =
    rw (shift e)
      (omega (arith, pow-suc 10 (suc e), pow-suc 10 e, ten_within e, pow-suc 100 ((e + 1) / 2)))
  where
    shift : (e : ℕ) → (suc (suc e) + 1) / 2 ≡ suc ((e + 1) / 2)
    shift e = omega arith

mul_lt_mul : (v t p d : ℕ) → v < p → t ≤ d → 0 < d → v * t < p * d
mul_lt_mul v t p d h k l = grind arith

mul_le_mul : (v t p d : ℕ) → p ≤ v → d ≤ t → p * d ≤ v * t
mul_le_mul v t p d h k = grind arith

-- The scaled operand, and the bounds on it by units.
scaled_lt : (b : List ℕ) (e : ℕ) → IsUnits b → value b * 10 ^ e < 100 ^ (length b + d2u e)
scaled_lt b e hb =
    rw (hundred-add (length b) (d2u e), d2u-eq e)
      (mul_lt_mul (value b) (10 ^ e) (100 ^ length b) (100 ^ ((e + 1) / 2)) (value-lt b hb)
        (ten_within e).0 (one-le-pow ((e + 1) / 2) 100 (omega arith)))

le-scaled :
    (b : List ℕ) (e : ℕ) → IsTrimmed b → 100 ^ (length b + d2u e) ≤ 1000 * (value b * 10 ^ e)
le-scaled b e tb =
    rw (hundred-add (length b) (d2u e), d2u-eq e)
      (omega (
        arith,
        mul_le_mul (100 * value b) (10 * 10 ^ e) (100 ^ length b) (100 ^ ((e + 1) / 2))
            (le-value b tb) (ten_within e).1,
      ))

-- The sign of the difference.
difference-order :
    (r : Result) (x w p : ℕ)
    → signed_value r ≡ pos x +ℤ negsuc p *ℤ pos w
    → (r.negative ≡ true → 0 < value r.units)
    → (if r.negative then some (negsuc 0) else some (find_nonzero r.units))
      ≡ some (order x (suc p * w))
difference-order r x w p e n = elim (Bool-cases r.negative) [
  | inl below ↦ rw below (ground (arith, n below))
  | inr above ↦ rw (above, find_nonzero-order) (ground arith)
]

module _ (a b : List ℕ) (ha : IsUnits a) (hb : IsUnits b) (ta : IsTrimmed a)
    (tb : IsTrimmed b) where
  -- The two shortcuts for operands of very different lengths.
  padded_shorter :
      (e : ℕ) → length b + d2u e < length a → order (value a) (value b * 10 ^ e) ≡ pos 1
  padded_shorter e h =
      let bigger = pow-le-pow_right {n = 100} (omega arith) h in
      ground (arith, bigger, le-value a ta, scaled_lt b e hb, pow-suc 100 (length b + d2u e))

  padded_longer :
      (e : ℕ) → length a + 1 < length b + d2u e → order (value a) (value b * 10 ^ e) ≡ negsuc 0
  padded_longer e h =
      let two_more : suc (suc (length a)) ≤ length b + d2u e = omega (arith, h) in
      let bigger = pow-le-pow_right {n = 100} (omega arith) two_more in
      ground (
        arith,
        bigger,
        value-lt a ha,
        le-scaled b e tb,
        pow-suc 100 (suc (length a)),
        pow-suc 100 (length a),
      )

  -- The real subtraction, by what is left of the exponent in a unit.
  subtracted_by :
      (e p : ℕ)
      → p < 99
      → powers (e % 2) ≡ suc p
      → let r = unit_add_sub a b (e / 2) (negsuc p) in
        (if r.negative then some (negsuc 0) else some (find_nonzero r.units))
        ≡ some (order (value a) (value b * 10 ^ e))
  subtracted_by e p small h =
      let sum = unit_add_sub_lem a b (e / 2) (negsuc p) ha hb (omega (arith, small)) in
      let scaled : value b * 10 ^ e ≡ suc p * (100 ^ (e / 2) * value b) =
        rw (ten-pow e, h) (grind arith) in
      rw scaled (difference-order _ (value a) (100 ^ (e / 2) * value b) p sum.0 sum.2)

  subtracted :
      (e r : ℕ)
      → e % 2 ≡ r
      → r < 2
      → let d = unit_add_sub a b (e / 2) (neg_ℕ (powers r)) in
        (if d.negative then some (negsuc 0) else some (find_nonzero d.units))
        ≡ some (order (value a) (value b * 10 ^ e))
  subtracted e zero h l = subtracted_by e 0 (omega arith) (rw h)
  subtracted e (suc zero) h l = subtracted_by e 9 (omega arith) (rw h)
  subtracted e (suc (suc r)) h l = absurd (omega arith)

  aligned :
      (if ltb (length b) (length a)
        then some (pos 1)
        else if ltb (length a) (length b)
        then some (negsuc 0)
        else some (compare_down a b))
      ≡ some (order (value a) (value b))
  aligned =
      ground (arith, longer-order a b hb ta, shorter-order a b ha tb, compare_down-order a b ha hb)

  pub unit_compare_lem :
      (allocated : Bool) (exp : ℕ)
      → (unit_compare allocated a b exp ≡ some (order (value a) (value b * 10 ^ exp)))
        ⊎ ((unit_compare allocated a b exp ≡ none)
            × (allocated ≡ false)
            × (accbuff_units < max (length a) (length b + d2u exp) + 2))
  unfolding unit_compare
  unit_compare_lem allocated zero = inl (rw (times_one (value b)) aligned)
    where
      times_one : (n : ℕ) → n * 10 ^ 0 ≡ n
      times_one n = omega arith
  unit_compare_lem allocated (suc e) = ground (
    arith,
    padded_shorter (suc e),
    padded_longer (suc e),
    subtracted (suc e) (suc e % 2) refl (omega arith),
  )
