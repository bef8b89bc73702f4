-- ===== src/Units/AddSub/Loops.antt =====
-- decUnitAddSub computes the sum.
use cpp_decimal.Base.{ℕ, ◌+◌, ◌*◌, ◌^◌, ◌≤◌, ◌<◌, ◌≡◌, arith, ap}
use cpp_decimal.Base.{List, [], ◌∷◌, length, pow-suc}
use cpp_decimal.Base.Int.{ℤ, pos, negsuc, pos_part, neg_part, ◌+ℤ◌, ◌*ℤ◌, ◌≤ℤ◌, neg_ℕ}
use cpp_decimal.Units.{value, IsUnits}
use cpp_decimal.Units.AddSub.{split_unit, Sum, emit, add_loop}

-- A carry that two units can hold, taken apart.
split_unit_lem :
    (t : ℤ)
    → neg_ℕ 10000 ≤ℤ t
    → t ≤ℤ pos 9999
    → ((split_unit t).out < 100)
      × ((split_unit t).out + 100 * pos_part (split_unit t).carry + neg_part t
          ≡ pos_part t + 100 * neg_part (split_unit t).carry)
unfolding split_unit
split_unit_lem (pos t) lo hi = ground arith
split_unit_lem (negsuc n) lo hi = ground arith

-- A multiplier or a carry of two digits.
abbrev pub IsSmall : ℤ → Type 0
IsSmall m = (pos_part m ≤ 99) × (neg_part m ≤ 99)

-- What the loops return for the carry `c` and the remaining number `plus` - `minus`.
pub record IsSum (c : ℤ) (plus minus : ℕ) (s : Sum) : Type 0 where
  pub units : IsUnits s.units
  pub small : IsSmall s.carry
  pub total :
      value s.units + 100 ^ length s.units * pos_part s.carry + neg_part c + minus
      ≡ pos_part c + plus + 100 ^ length s.units * neg_part s.carry

-- One unit in front.
emit-IsSum :
    (t : ℤ) (plus minus : ℕ) (rest : Sum)
    → neg_ℕ 10000 ≤ℤ t
    → t ≤ℤ pos 9999
    → IsSum (split_unit t).carry plus minus rest
    → IsSum t (100 * plus) (100 * minus) (emit (split_unit t).out rest)
unfolding emit
emit-IsSum t plus minus rest lo hi h = record {
  units = ((split_unit_lem t lo hi).0, h.units);
  small = h.small;
  total = omega (
    arith,
    split_unit_lem t lo hi,
    h.total,
    pow-suc 100 (length rest.units),
    ap (λ (n : ℕ). n * pos_part rest.carry) (pow-suc 100 (length rest.units)),
    ap (λ (n : ℕ). n * neg_part rest.carry) (pow-suc 100 (length rest.units)),
  );
}

-- The same result for another way to write the number.
regroup :
    (t c : ℤ) (p q p' q' : ℕ) (s : Sum)
    → pos_part t + p + neg_part c + q' ≡ pos_part c + p' + neg_part t + q
    → IsSum t p q s
    → IsSum c p' q' s
regroup t c p q p' q' s e h = record {
  units = h.units;
  small = h.small;
  total = omega (arith, e, h.total);
}

split_unit-IsSmall : (t : ℤ) → neg_ℕ 9900 ≤ℤ t → t ≤ℤ pos 9999 → IsSmall (split_unit t).carry
unfolding split_unit
split_unit-IsSmall (pos t) lo hi = ground arith
split_unit-IsSmall (negsuc n) lo hi = ground arith

-- A unit times the multiplier.
product_bounds :
    (y : ℕ) (m : ℤ) → y < 100 → IsSmall m → (y * pos_part m ≤ 9801) × (y * neg_part m ≤ 9801)
product_bounds y m h s = (grind arith, grind arith)

-- The new carry `t`, before it is split: its bounds, and its parts.
record IsStep (m c : ℤ) (x y : ℕ) (t : ℤ) : Type 0 where
  lo : neg_ℕ 9900 ≤ℤ t
  hi : t ≤ℤ pos 9999
  parts : pos_part t + neg_part c + neg_part m * y ≡ neg_part t + pos_part c + x + pos_part m * y

module _ (m : ℤ) (small : IsSmall m) where
  both-IsStep :
      (c : ℤ) (x y : ℕ) → IsSmall c → x < 100 → y < 100 → IsStep m c x y (c +ℤ pos x +ℤ pos y *ℤ m)
  both-IsStep c x y hc hx hy = record {
    lo = ground (arith, product_bounds y m hy small);
    hi = ground (arith, product_bounds y m hy small);
    parts = ground arith;
  }

  only_a-IsStep : (c : ℤ) (x : ℕ) → IsSmall c → x < 100 → IsStep m c x 0 (c +ℤ pos x)
  only_a-IsStep c x hc hx = record { lo = ground arith; hi = ground arith; parts = ground arith }

  only_b-IsStep : (c : ℤ) (y : ℕ) → IsSmall c → y < 100 → IsStep m c 0 y (c +ℤ pos y *ℤ m)
  only_b-IsStep c y hc hy = record {
    lo = ground (arith, product_bounds y m hy small);
    hi = ground (arith, product_bounds y m hy small);
    parts = ground arith;
  }

  step-IsSum :
      (t c : ℤ) (x y va vb : ℕ) (rest : Sum)
      → IsStep m c x y t
      → IsSum (split_unit t).carry (va + pos_part m * vb) (neg_part m * vb) rest
      → IsSum c
          (x + 100 * va + pos_part m * (y + 100 * vb))
          (neg_part m * (y + 100 * vb))
          (emit (split_unit t).out rest)
  step-IsSum t c x y va vb rest st h =
      regroup t c _ _ _ _ _ (omega (arith, st.parts))
        (emit-IsSum t _ _ rest (omega (arith, st.lo)) st.hi h)

  pub add_loop-IsSum :
      (a b : List ℕ) (c : ℤ)
      → IsUnits a
      → IsUnits b
      → IsSmall c
      → IsSum c (value a + pos_part m * value b) (neg_part m * value b) (add_loop m a b c)
  unfolding add_loop
  add_loop-IsSum [] [] c ha hb hc = record { units = tt; small = hc; total = omega arith }
  add_loop-IsSum (x ∷ a) (y ∷ b) c ha hb hc =
      let st = both-IsStep c x y hc ha.0 hb.0 in
      step-IsSum _ c x y _ _ _ st
        (add_loop-IsSum a b _ ha.1 hb.1 (split_unit-IsSmall _ st.lo st.hi))
  add_loop-IsSum (x ∷ a) [] c ha hb hc =
      let st = only_a-IsStep c x hc ha.0 in
      step-IsSum _ c x 0 _ 0 _ st (add_loop-IsSum a [] _ ha.1 tt (split_unit-IsSmall _ st.lo st.hi))
  add_loop-IsSum [] (y ∷ b) c ha hb hc =
      let st = only_b-IsStep c y hc hb.0 in
      step-IsSum _ c 0 y 0 _ _ st (add_loop-IsSum [] b _ tt hb.1 (split_unit-IsSmall _ st.lo st.hi))
