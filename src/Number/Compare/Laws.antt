-- ===== src/Number/Compare/Laws.antt =====
-- decCompare compares the values of finite numbers.
use cpp_decimal.Base.{ℕ, ◌*◌, ◌-◌, ◌^◌, ◌≤◌, ◌≡◌, ◌≢◌, ◌⊎◌, inl, inr, refl, arith, ap}
use cpp_decimal.Base.{
  Bool, true, false, List, ◌==◌, if◌then◌else◌, Option, none, some, Bool-cases, one-le-pow, sym,
  ◌∙◌,
}
use cpp_decimal.Base.Int.{
  ℤ, pos, negsuc, pos_part, neg, neg_ℕ, ◌-ℤ◌, ◌*ℤ◌, ltb_ℤ, eqb_ℤ, ◌≤ℤ◌, wrap_int, wrap_int-same,
}
use cpp_decimal.Number.{DecNumber, IsCoefficient, is_zero, is_special, is_negative}
use cpp_decimal.Number.Laws.{is_zero-eq, coefficient-IsTrimmed, either_infinite}
use cpp_decimal.Number.Compare.{signum, compare_coefficients, compare_same_sign, compare_numbers}
use cpp_decimal.Units.{value, IsUnits}
use cpp_decimal.Units.Compare.{unit_compare}
use cpp_decimal.Units.Compare.Laws.{order, unit_compare_lem, IsTrimmed}

-- How two integers compare: -1, 0 or 1.
abbrev pub order_ℤ : ℤ → ℤ → ℤ
order_ℤ x y = if ltb_ℤ y x then pos 1 else if ltb_ℤ x y then negsuc 0 else pos 0

-- The coefficient of `dn` at the smaller of its exponent and that of `other`.
abbrev pub aligned : DecNumber → DecNumber → ℕ
aligned dn other = value dn.lsu * 10 ^ pos_part (dn.exponent -ℤ other.exponent)

-- A coefficient at its own exponent.
pub no_shift : (v : ℕ) (x : ℤ) → v * 10 ^ pos_part (x -ℤ x) ≡ v
no_shift v x = rw (same x) (omega arith)
  where
    same : (x : ℤ) → pos_part (x -ℤ x) ≡ 0
    same x = ground arith

-- With the sign, or without it for a sign-independent comparison.
abbrev pub amount : Bool → DecNumber → ℕ → ℤ
amount abs dn n = if abs then pos n else if is_negative dn then neg_ℕ n else pos n

-- A finite number in a valid form.
pub record IsFinite (dn : DecNumber) : Type 0 where
  pub coefficient : IsCoefficient dn.digits dn.lsu
  pub plain : is_special dn ≡ false

-- The difference of the exponents, and one more for D2U, fits an Int.
abbrev pub IsNear : DecNumber → DecNumber → Type 0
IsNear lhs rhs =
    (lhs.exponent -ℤ rhs.exponent ≤ℤ pos 2147483646)
    × (rhs.exponent -ℤ lhs.exponent ≤ℤ pos 2147483646)

-- Then it does not wrap.
unwrapped :
    (x y : ℤ) → x -ℤ y ≤ℤ pos 2147483646 → y -ℤ x ≤ℤ pos 2147483646 → wrap_int (x -ℤ y) ≡ x -ℤ y
unwrapped x y h k = wrap_int-same (x -ℤ y) (above x y k) (below (x -ℤ y) h)
  where
    above : (x y : ℤ) → y -ℤ x ≤ℤ pos 2147483646 → neg_ℕ (2 ^ 31) ≤ℤ x -ℤ y
    above x y k = ground (arith, k)

    below : (z : ℤ) → z ≤ℤ pos 2147483646 → z ≤ℤ pos (2 ^ 31 - 1)
    below z h = ground (arith, h)

units_ordered :
    (a b : List ℕ) (k : ℕ)
    → IsUnits a
    → IsUnits b
    → IsTrimmed a
    → IsTrimmed b
    → unit_compare true a b k ≡ some (order (value a) (value b * 10 ^ k))
units_ordered a b k ha hb ta tb = success (unit_compare_lem a b ha hb ta tb true k)
  where
    success :
        {P : Type 0}
        → (unit_compare true a b k ≡ some (order (value a) (value b * 10 ^ k)))
          ⊎ ((unit_compare true a b k ≡ none) × (true ≡ false) × P)
        → unit_compare true a b k ≡ some (order (value a) (value b * 10 ^ k))
    success (inl e) = e
    success (inr e) = cc (e.1)

swapped : (x y : ℕ) (r : ℤ) → order y x *ℤ neg r ≡ order x y *ℤ r
swapped x y (pos r) = ground arith
swapped x y (negsuc r) = ground arith

compare_coefficients-order :
    (lhs rhs : DecNumber) (r : ℤ)
    → IsFinite lhs
    → IsFinite rhs
    → IsNear lhs rhs
    → value lhs.lsu ≢ 0
    → value rhs.lsu ≢ 0
    → compare_coefficients true lhs rhs r ≡ some (order (aligned lhs rhs) (aligned rhs lhs) *ℤ r)
unfolding compare_coefficients
compare_coefficients-order lhs rhs r fl fr near nl nr =
    let tl = coefficient-IsTrimmed _ _ fl.coefficient nl in
    let tr = coefficient-IsTrimmed _ _ fr.coefficient nr in
    let ul = fl.coefficient.units in
    let ur = fr.coefficient.units in
    elim (Bool-cases (ltb_ℤ rhs.exponent lhs.exponent)) [
      | inl larger ↦
          rw
            (
              larger,
              unwrapped lhs.exponent rhs.exponent near.0 near.1,
              units_ordered rhs.lsu lhs.lsu _ ur ul tr tl,
              below rhs.exponent lhs.exponent larger,
              times_one (value rhs.lsu),
            )
            (ap some (swapped (aligned lhs rhs) (value rhs.lsu) r))
      | inr smaller ↦
          rw
            (
              smaller,
              unwrapped rhs.exponent lhs.exponent near.1 near.0,
              units_ordered lhs.lsu rhs.lsu _ ul ur tl tr,
              not_above lhs.exponent rhs.exponent smaller,
              times_one (value lhs.lsu),
            )
            refl
    ]
  where
    below : (x y : ℤ) → ltb_ℤ x y ≡ true → pos_part (x -ℤ y) ≡ 0
    below x y h = ground arith

    not_above : (x y : ℤ) → ltb_ℤ y x ≡ false → pos_part (x -ℤ y) ≡ 0
    not_above x y h = ground arith

    times_one : (n : ℕ) → n * 10 ^ 0 ≡ n
    times_one n = omega arith

aligned-eq_zero : (dn other : DecNumber) → (aligned dn other == 0) ≡ (value dn.lsu == 0)
aligned-eq_zero dn other =
    let positive = one-le-pow (pos_part (dn.exponent -ℤ other.exponent)) 10 (omega arith) in
    same _ _ positive
  where
    same : (n t : ℕ) → 1 ≤ t → (n * t == 0) ≡ (n == 0)
    same n t h = grind arith

same_sign-order :
    (lhs rhs : DecNumber) (r : ℤ)
    → IsFinite lhs
    → IsFinite rhs
    → IsNear lhs rhs
    → is_zero lhs ≡ false
    → is_zero rhs ≡ false
    → compare_same_sign true lhs rhs r ≡ some (order (aligned lhs rhs) (aligned rhs lhs) *ℤ r)
unfolding compare_same_sign
same_sign-order lhs rhs r fl fr near zl zr =
    rw (either_infinite lhs.bits rhs.bits fl.plain fr.plain) (
      compare_coefficients-order lhs rhs r fl fr near
        (nonzero lhs (sym (is_zero-eq lhs fl.coefficient fl.plain) ∙ zl))
        (nonzero rhs (sym (is_zero-eq rhs fr.coefficient fr.plain) ∙ zr)))
  where
    nonzero : (dn : DecNumber) → (value dn.lsu == 0) ≡ false → value dn.lsu ≢ 0
    nonzero dn h = ground arith

-- The signs and the zeros decide, or else the magnitudes do.
abbrev by_sign : Bool → Bool → Bool → Bool → Bool → (ℤ → Option ℤ) → Option ℤ
by_sign abs zl zr nl nr same =
    if abs
    then (let result = if zl then pos 0 else pos 1 in
        if zr then some result else if eqb_ℤ result (pos 0) then some (negsuc 0) else same result)
    else (let result = if zl then pos 0 else if nl then negsuc 0 else pos 1 in
        let sigr = if zr then pos 0 else if nr then negsuc 0 else pos 1 in
        if ltb_ℤ sigr result
        then some (pos 1)
        else if ltb_ℤ result sigr
        then some (negsuc 0)
        else if eqb_ℤ result (pos 0)
        then some (pos 0)
        else same result)

by_sign-order :
    (abs zl zr nl nr : Bool) (same : ℤ → Option ℤ) (a b : ℕ)
    → zl ≡ (a == 0)
    → zr ≡ (b == 0)
    → (zl ≡ false → zr ≡ false → (same (pos 1) ≡ some (order a b *ℤ pos 1)))
    → (zl ≡ false → zr ≡ false → (same (negsuc 0) ≡ some (order a b *ℤ negsuc 0)))
    → by_sign abs zl zr nl nr same
      ≡ some (
          order_ℤ
            (if abs then pos a else if nl then neg_ℕ a else pos a)
            (if abs then pos b else if nr then neg_ℕ b else pos b))
by_sign-order true zl zr nl nr same a b ea eb s t = ground (arith, s, t)
by_sign-order false zl zr true true same a b ea eb s t = ground (arith, s, t)
by_sign-order false zl zr true false same a b ea eb s t = ground (arith, s, t)
by_sign-order false zl zr false true same a b ea eb s t = ground (arith, s, t)
by_sign-order false zl zr false false same a b ea eb s t = ground (arith, s, t)

-- decCompare, on valid finite numbers whose exponents differ by at most 2147483646 and with storage where it is
-- needed: it returns -1, 0 or 1 as the value of the first is less than, equal to or greater than that of the
-- second, with the signs or, on request, without them.
pub compare_numbers_lem :
    (lhs rhs : DecNumber) (abs : Bool)
    → IsFinite lhs
    → IsFinite rhs
    → IsNear lhs rhs
    → compare_numbers true lhs rhs abs
      ≡ some (order_ℤ (amount abs lhs (aligned lhs rhs)) (amount abs rhs (aligned rhs lhs)))
unfolding compare_numbers signum
compare_numbers_lem lhs rhs abs fl fr near =
    by_sign-order abs (is_zero lhs) (is_zero rhs) (is_negative lhs) (is_negative rhs)
      (compare_same_sign true lhs rhs) (aligned lhs rhs) (aligned rhs lhs)
      (is_zero-eq lhs fl.coefficient fl.plain ∙ sym (aligned-eq_zero lhs rhs))
      (is_zero-eq rhs fr.coefficient fr.plain ∙ sym (aligned-eq_zero rhs lhs))
      (same_sign-order lhs rhs (pos 1) fl fr near) (same_sign-order lhs rhs (negsuc 0) fl fr near)
