-- ===== src/Arith/Add/Units/Fast.antt =====
-- The fast path of an addition gives the exact sum.
use cpp_decimal.Base.{
  ℕ, zero, suc, ◌+◌, ◌-◌, ◌*◌, ◌^◌, ◌≤◌, ◌<◌, ◌≡◌, ◌≢◌, ◌⊎◌, inl, inr, refl, arith, ap, ◌∙◌,
}
use cpp_decimal.Base.{
  Bool, true, false, ltb, leb, ◌&&◌, ◌||◌, if◌then◌else◌, List, [], ◌∷◌, length, Bool-cases,
  pow-suc, Option, none, some,
}
use cpp_decimal.Base.Int.{leb_ℤ, eqb_ℤ, ◌+ℤ◌, ◌-ℤ◌, ℤ, pos, neg_ℕ}
use cpp_decimal.Arith.Add.Units.{add_fast, can_add_fast, change_unit, store_first}
use cpp_decimal.Base.{==_iff}
use cpp_decimal.Base.Int.{eq_of_parts}
use mathlib.Core.Path.{subst}
use cpp_decimal.Arith.Add.Units.Sum.{signed_sum}
use cpp_decimal.Context.{DecContext}
use cpp_decimal.Number.{DecNumber, IsCoefficient, first_unit, is_negative}
use cpp_decimal.Number.Digits.{recount}
use cpp_decimal.Number.Digits.Recount.{recount-IsCounted, recount-bits, recount-exponent}
use cpp_decimal.Number.Int32.Laws.{signed}
use cpp_decimal.Number.Sign.Laws.{copy-eq}
use cpp_decimal.Units.{value, IsUnits, d2u-eq, powers}

-- A store to the lowest unit, with a value of two digits.
stored_value :
    (us : List ℕ) (v : ℕ) → us ≢ [] → value (store_first v us) + first_unit us ≡ value us + v
stored_value [] v ne = absurd (ne refl)
stored_value (u ∷ us) v ne = omega arith

stored-IsUnits : (us : List ℕ) (v : ℕ) → IsUnits us → v < 100 → IsUnits (store_first v us)
stored-IsUnits [] v hu h = hu
stored-IsUnits (u ∷ us) v hu h = (h, hu.1)

length-store_first : (us : List ℕ) (v : ℕ) → length (store_first v us) ≡ length us
length-store_first [] v = refl
length-store_first (u ∷ us) v = refl

store_first-ne : (us : List ℕ) (v : ℕ) → us ≢ [] → store_first v us ≢ []
store_first-ne [] v ne = ne
store_first-ne (u ∷ us) v ne = λ e. cc e

first_unit-lt : (us : List ℕ) → IsUnits us → first_unit us < 100
first_unit-lt [] h = omega arith
first_unit-lt (u ∷ us) h = h.0

some_unit : (digits : ℕ) (us : List ℕ) → IsCoefficient digits us → us ≢ []
some_unit digits [] c = absurd (omega (arith, c.same_length, c.some_digit, d2u-eq digits))
some_unit digits (u ∷ us) c = λ e. cc e

-- The number has room for a larger lowest unit.
stored_fits :
    (digits : ℕ) (us : List ℕ) (v : ℕ)
    → IsCoefficient digits us
    → v < 100
    → leb 2 digits || ltb v (powers digits) ≡ true
    → value (store_first v us) < 10 ^ digits
stored_fits zero us v c h t = absurd (omega (arith, c.some_digit))
stored_fits (suc zero) [] v c h t = omega arith
stored_fits (suc zero) (u ∷ []) v c h t = ground (arith, t)
stored_fits (suc zero) (u ∷ w ∷ us) v c h t = absurd (omega (arith, c.same_length, d2u-eq 1))
stored_fits (suc (suc d)) [] v c h t = omega (arith, c.fits)
stored_fits (suc (suc d)) (u ∷ us) v c h t = omega (arith, c.fits, pow-suc 10 (suc d), pow-suc 10 d)

-- What the fast path returns.
pub record IsFastSum (lhs rhs : DecNumber) (diffsign : Bool) (dn : DecNumber) : Type 0 where
  pub aligned : rhs.exponent ≡ lhs.exponent
  pub total : signed dn ≡ signed_sum (is_negative lhs) diffsign (value lhs.lsu) (value rhs.lsu)
  pub coefficient : IsCoefficient dn.digits dn.lsu
  pub exponent : dn.exponent ≡ lhs.exponent
  pub fits : value dn.lsu < 10 ^ lhs.digits

module _ (lhs rhs : DecNumber) (cl : IsCoefficient lhs.digits lhs.lsu)
    (cr : IsCoefficient rhs.digits rhs.lsu) (aligned : rhs.exponent ≡ lhs.exponent)
    (short : rhs.digits ≤ 2) where
  single : value rhs.lsu ≡ first_unit rhs.lsu
  single = one_unit rhs.lsu rhs.digits cr short
    where
      one_unit : (us : List ℕ) (d : ℕ) → IsCoefficient d us → d ≤ 2 → value us ≡ first_unit us
      one_unit [] d c h = refl
      one_unit (u ∷ []) d c h = omega arith
      one_unit (u ∷ v ∷ us) d c h = absurd (omega (arith, c.same_length, d2u-eq d))

  fast_added :
      leb (first_unit lhs.lsu + first_unit rhs.lsu) 99 ≡ true
      → leb 2 lhs.digits || ltb (first_unit lhs.lsu + first_unit rhs.lsu) (powers lhs.digits) ≡ true
      → IsFastSum lhs rhs false
          (record lhs { lsu = store_first (first_unit lhs.lsu + first_unit rhs.lsu) lhs.lsu })
  fast_added small room =
      let ne = some_unit _ lhs.lsu cl in
      let v = first_unit lhs.lsu + first_unit rhs.lsu in
      let below : v < 100 = ground (arith, small) in
      let total : value (store_first v lhs.lsu) ≡ value lhs.lsu + value rhs.lsu =
        omega (arith, stored_value lhs.lsu v ne, single) in
      record {
        aligned = aligned;
        total = rw total (signs (is_negative lhs) (value lhs.lsu) (value rhs.lsu));
        coefficient = record {
          units = stored-IsUnits lhs.lsu v cl.units below;
          same_length = length-store_first lhs.lsu v ∙ cl.same_length;
          some_digit = cl.some_digit;
          fits = stored_fits lhs.digits lhs.lsu v cl below room;
          leading = grown cl.leading (omega (arith, total));
        };
        exponent = refl;
        fits = stored_fits lhs.digits lhs.lsu v cl below room;
      }
    where
      signs :
          (n : Bool) (a b : ℕ) → (if n then neg_ℕ (a + b) else pos (a + b)) ≡ signed_sum n false a b
      signs true a b = ground arith
      signs false a b = ground arith

      grown : {d v w : ℕ} → (d ≡ 1) ⊎ (10 ^ d ≤ 10 * v) → v ≤ w → (d ≡ 1) ⊎ (10 ^ d ≤ 10 * w)
      grown (inl e) h = inl e
      grown (inr l) h = inr (omega (arith, l, h))

  fast_subtracted :
      ltb (first_unit rhs.lsu) (first_unit lhs.lsu) ≡ true
      → IsFastSum lhs rhs true (
          recount
            (record lhs { lsu = store_first (first_unit lhs.lsu - first_unit rhs.lsu) lhs.lsu }))
  fast_subtracted less =
      let ne = some_unit _ lhs.lsu cl in
      let v = first_unit lhs.lsu - first_unit rhs.lsu in
      let kept : DecNumber = record lhs { lsu = store_first v lhs.lsu } in
      let total : value (store_first v lhs.lsu) + value rhs.lsu ≡ value lhs.lsu =
        ground (arith, stored_value lhs.lsu v ne, single, less) in
      let n =
        recount-IsCounted kept (store_first-ne lhs.lsu v ne)
          (stored-IsUnits lhs.lsu v cl.units (omega (arith, first_unit-lt lhs.lsu cl.units))) in
      record {
        aligned = aligned;
        total =
            simp (recount-bits kept, n.total)
              (signs (is_negative lhs) (value lhs.lsu) (value rhs.lsu) _ total);
        coefficient = n.coefficient;
        exponent = recount-exponent kept;
        fits = rw (n.total) (omega (arith, total, cl.fits));
      }
    where
      signs :
          (n : Bool) (a b w : ℕ)
          → w + b ≡ a
          → (if n then neg_ℕ w else pos w) ≡ signed_sum n true a b
      signs true a b w e = ground (arith, e)
      signs false a b w e = ground (arith, e)

some_injective : {a b : DecNumber} → some a ≡ some b → a ≡ b
some_injective {a} e = ap (λ (o : Option DecNumber). elim o [ some x ↦ x | none ↦ a ]) e

change_unit-IsFastSum :
    (lhs rhs : DecNumber) (diffsign : Bool) (dn : DecNumber)
    → IsCoefficient lhs.digits lhs.lsu
    → IsCoefficient rhs.digits rhs.lsu
    → rhs.exponent ≡ lhs.exponent
    → rhs.digits ≤ 2
    → change_unit lhs rhs diffsign ≡ some dn
    → IsFastSum lhs rhs diffsign dn
unfolding change_unit
change_unit-IsFastSum lhs rhs false dn cl cr e s h =
    let a = first_unit lhs.lsu in
    let b = first_unit rhs.lsu in
    elim (Bool-cases (leb (a + b) 99 && (leb 2 lhs.digits || ltb (a + b) (powers lhs.digits)))) [
      | inr no_room ↦ absurd (cc (rw no_room at h))
      | inl room ↦
          subst (IsFastSum lhs rhs false) (some_injective (rw (room, copy-eq lhs cl) at h))
            (fast_added lhs rhs cl cr e s (left _ _ room) (right _ _ room))
    ]
  where
    left : (x y : Bool) → x && y ≡ true → x ≡ true
    left true y h = refl
    left false y h = cc h

    right : (x y : Bool) → x && y ≡ true → y ≡ true
    right true y h = h
    right false y h = cc h
change_unit-IsFastSum lhs rhs true dn cl cr e s h =
    elim (Bool-cases (ltb (first_unit rhs.lsu) (first_unit lhs.lsu))) [
      | inr borrow ↦ absurd (cc (rw borrow at h))
      | inl less ↦
          subst (IsFastSum lhs rhs true) (some_injective (rw (less, copy-eq lhs cl) at h))
            (fast_subtracted lhs rhs cl cr e s less)
    ]

-- The fast path returns the exact sum or difference, at the exponent of both operands.
pub add_fast-IsFastSum :
    (lhs rhs : DecNumber) (set : DecContext) (diffsign : Bool) (dn : DecNumber)
    → IsCoefficient lhs.digits lhs.lsu
    → IsCoefficient rhs.digits rhs.lsu
    → add_fast lhs rhs set diffsign ≡ some dn
    → IsFastSum lhs rhs diffsign dn
unfolding add_fast
add_fast-IsFastSum lhs rhs set diffsign dn cl cr h = elim (Bool-cases (can_add_fast lhs rhs set)) [
  | inr slow ↦ absurd (cc (rw slow at h))
  | inl fast ↦
      change_unit-IsFastSum lhs rhs diffsign dn cl cr
        (eq_of_parts _ _ ((==_iff _ _).0 (first_of _ _ _ _ _ _ fast)))
        (at_most _ _ (second_of _ _ _ _ _ _ fast)) (rw fast at h)
]
  where
    first_of : (a b c d e f : Bool) → a && b && c && d && e && f ≡ true → a ≡ true
    first_of a b c d e f h = ground (arith, h)

    second_of : (a b c d e f : Bool) → a && b && c && d && e && f ≡ true → b ≡ true
    second_of a b c d e f h = ground (arith, h)

    at_most : (a b : ℕ) → leb a b ≡ true → a ≤ b
    at_most a b h = ground (arith, h)

-- The fast path is for a left operand within the precision.
pub add_fast-short :
    (lhs rhs : DecNumber) (set : DecContext) (diffsign : Bool) (dn : DecNumber) (p : ℕ)
    → set.digits ≡ pos p
    → add_fast lhs rhs set diffsign ≡ some dn
    → lhs.digits ≤ p
unfolding add_fast
add_fast-short lhs rhs set diffsign dn p e h = elim (Bool-cases (can_add_fast lhs rhs set)) [
  | inr slow ↦ absurd (cc (rw slow at h))
  | inl fast ↦ at_most lhs.digits set.digits p e (
      last_of
        (eqb_ℤ rhs.exponent lhs.exponent
          && leb rhs.digits 2
          && leb_ℤ set.emin rhs.exponent
          && leb_ℤ rhs.exponent (set.emax -ℤ set.digits +ℤ pos 1)
          && leb_ℤ (pos rhs.digits) set.digits)
        (leb_ℤ (pos lhs.digits) set.digits) fast)
]
  where
    last_of : (a b : Bool) → a && b ≡ true → b ≡ true
    last_of true b h = h
    last_of false b h = cc h

    at_most : (n : ℕ) (x : ℤ) (p : ℕ) → x ≡ pos p → leb_ℤ (pos n) x ≡ true → n ≤ p
    at_most n x p e h = ground (arith, rw e at h)
