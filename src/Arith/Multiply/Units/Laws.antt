-- ===== src/Arith/Multiply/Units/Laws.antt =====
-- The unit path of decMultiplyOp gives the exact product.
use cpp_decimal.Base.{ℕ, zero, suc, ◌+◌, ◌*◌, ◌^◌, ◌≤◌, ◌<◌, ◌≡◌, refl, arith, ap, sym, ◌∙◌}
use cpp_decimal.Base.{
  Bool, true, false, List, [], ◌∷◌, ◌++◌, length, take, drop, take-append-drop, length-append, ◌==◌,
  if◌then◌else◌, pow-suc, Bool-cases, inl, inr, ==_iff,
}
use cpp_decimal.Base.Int.{pos, neg_ℕ, ◌+ℤ◌, ◌*ℤ◌}
use cpp_decimal.Arith.Multiply.Units.{multiply_step, multiply_units}
use cpp_decimal.Units.{value, IsUnits}
use cpp_decimal.Units.AddSub.{unit_add_sub}
use cpp_decimal.Units.AddSub.Whole.{unit_add_sub_lem}

value-append : (a b : List ℕ) → value (a ++ b) ≡ value a + 100 ^ length a * value b
value-append [] b = omega arith
value-append (u ∷ a) b = omega (
  arith,
  value-append a b,
  ap (λ (t : ℕ). t * value b) (pow-suc 100 (length a)),
  regroup (100 ^ length a) (value b),
)
  where
    regroup : (p v : ℕ) → 100 * (p * v) ≡ p * 100 * v
    regroup p v = grind arith

IsUnits-append : (a b : List ℕ) → IsUnits a → IsUnits b → IsUnits (a ++ b)
IsUnits-append [] b h k = k
IsUnits-append (u ∷ a) b h k = (h.0, IsUnits-append a b h.1 k)

IsUnits-take : (n : ℕ) (a : List ℕ) → IsUnits a → IsUnits (take n a)
IsUnits-take zero a h = tt
IsUnits-take (suc n) [] h = tt
IsUnits-take (suc n) (u ∷ a) h = (h.0, IsUnits-take n a h.1)

IsUnits-drop : (n : ℕ) (a : List ℕ) → IsUnits a → IsUnits (drop n a)
IsUnits-drop zero a h = h
IsUnits-drop (suc n) [] h = tt
IsUnits-drop (suc n) (u ∷ a) h = IsUnits-drop n a h.1

length-take : (n : ℕ) (a : List ℕ) → n ≤ length a → length (take n a) ≡ n
length-take zero a h = refl
length-take (suc n) [] h = absurd (omega arith)
length-take (suc n) (u ∷ a) h = ap suc (length-take n a (omega arith))

-- What a step keeps: the units of the accumulator, and as many as the multiplier has used, or one more.
record IsStep (mad : List ℕ) (shift u : ℕ) (acc new : List ℕ) : Type 0 where
  total : value new ≡ value acc + 100 ^ shift * (u * value mad)
  units : IsUnits new
  longer : suc shift ≤ length new

multiply_step-IsStep :
    (mad : List ℕ) (shift u : ℕ) (acc : List ℕ)
    → IsUnits mad
    → 1 ≤ length mad
    → u < 100
    → IsUnits acc
    → shift ≤ length acc
    → IsStep mad shift u acc (multiply_step mad shift u acc)
unfolding multiply_step
multiply_step-IsStep mad shift u acc hm some hu ha hl = elim (Bool-cases (u == 0)) [
  | inl z ↦
      let e : u ≡ 0 = (==_iff u 0).0 z in
      rw e (record {
        total = value-append acc (0 ∷ []) ∙ none_more (value acc) (100 ^ length acc) (100 ^ shift);
        units = IsUnits-append acc (0 ∷ []) ha (omega arith, tt);
        longer = omega (arith, length-append acc (0 ∷ []));
      })
  | inr nz ↦
      let r = unit_add_sub (drop shift acc) mad 0 (pos u) in
      let sum =
        unit_add_sub_lem (drop shift acc) mad 0 (pos u) (IsUnits-drop shift acc ha) hm
          (omega arith, omega arith) in
      rw nz (record {
        total =
            whole (value (take shift acc)) (value (drop shift acc)) (value r.units) (100 ^ shift)
              (value acc) (u * value mad)
              (value-append (take shift acc) r.units
                ∙ ap (λ n. value (take shift acc) + 100 ^ n * value r.units)
                    (length-take shift acc hl))
              (split shift acc hl)
              (plain r.negative (value r.units) (value (drop shift acc)) u (value mad) sum.0 sum.2);
        units = IsUnits-append (take shift acc) r.units (IsUnits-take shift acc ha) sum.1;
        longer =
            omega (arith, length-append (take shift acc) r.units, length-take shift acc hl, sum.3);
      })
]
  where
    none_more : (v p q : ℕ) → v + p * (0 + 100 * 0) ≡ v + q * (0 * value mad)
    none_more v p q = grind arith

    whole : (t d r p a m : ℕ) {n : ℕ} → n ≡ t + p * r → a ≡ t + p * d → r ≡ d + m → n ≡ a + p * m
    whole t d r p a m e f g = rw (e, f, g) (grind arith)

    split :
        (n : ℕ) (a : List ℕ)
        → n ≤ length a
        → value a ≡ value (take n a) + 100 ^ n * value (drop n a)
    split n a h =
        ap value (sym (take-append-drop n a))
        ∙ value-append (take n a) (drop n a)
        ∙ ap (λ k. value (take n a) + 100 ^ k * value (drop n a)) (length-take n a h)

    plain :
        (n : Bool) (v a u b : ℕ)
        → (if n then neg_ℕ v else pos v) ≡ pos a +ℤ pos u *ℤ pos (100 ^ 0 * b)
        → (n ≡ true → 0 < v)
        → v ≡ a + u * b
    plain true zero a u b e h = absurd (omega (arith, h refl))
    plain true (suc v) a u b e h = ground (arith, e)
    plain false v a u b e h = ground (arith, e)

-- The product, added to what the accumulator has.
pub record IsProduct (n : ℕ) (units : List ℕ) : Type 0 where
  pub total : value units ≡ n
  pub is_units : IsUnits units
  pub some_units : 1 ≤ length units

multiply_units_from :
    (mad : List ℕ) (shift : ℕ) (mer acc : List ℕ)
    → IsUnits mad
    → 1 ≤ length mad
    → IsUnits mer
    → IsUnits acc
    → shift ≤ length acc
    → 1 ≤ length acc
    → IsProduct
        (value acc + 100 ^ shift * (value mer * value mad))
        (multiply_units mad shift mer acc)
unfolding multiply_units
multiply_units_from mad shift [] acc hm some hr ha hl h1 = record {
  total = none_left (value acc) (100 ^ shift) (value mad);
  is_units = ha;
  some_units = h1;
}
  where
    none_left : (a p m : ℕ) → a ≡ a + p * (0 * m)
    none_left a p m = grind arith
multiply_units_from mad shift (u ∷ mer) acc hm some hr ha hl h1 =
    let s = multiply_step-IsStep mad shift u acc hm some hr.0 ha hl in
    let rest =
      multiply_units_from mad (suc shift) mer (multiply_step mad shift u acc) hm some hr.1 s.units
        s.longer (omega (arith, s.longer)) in
    record {
      total =
          rest.total
          ∙ regroup (100 ^ shift) (100 ^ suc shift) (value acc) u (value mer) (value mad) s.total
              (pow-suc 100 shift);
      is_units = rest.is_units;
      some_units = rest.some_units;
    }
  where
    regroup :
        (p q a u r m : ℕ) {n : ℕ}
        → n ≡ a + p * (u * m)
        → q ≡ p * 100
        → n + q * (r * m) ≡ a + p * ((u + 100 * r) * m)
    regroup p q a u r m e f = rw (e, f) (grind arith)

pub multiply_units-IsProduct :
    (mad mer : List ℕ)
    → IsUnits mad
    → 1 ≤ length mad
    → IsUnits mer
    → IsProduct (value mad * value mer) (multiply_units mad 0 mer (0 ∷ []))
multiply_units-IsProduct mad mer hm some hr =
    let p =
      multiply_units_from mad 0 mer (0 ∷ []) hm some hr (omega arith, tt) (omega arith)
        (omega arith) in
    record {
      total = p.total ∙ start (value mad) (value mer);
      is_units = p.is_units;
      some_units = p.some_units;
    }
  where
    start : (m r : ℕ) → 0 + 100 * 0 + 100 ^ 0 * (r * m) ≡ m * r
    start m r = grind arith
