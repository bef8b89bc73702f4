-- ===== src/Number/Class/Laws.antt =====
-- The class of a finite number is that of its value.
use cpp_decimal.Base.{
  ℕ, zero, suc, ◌*◌, ◌^◌, ◌<◌, ◌≤◌, ◌≡◌, inl, inr, refl, arith, sym, ◌∙◌, ap, ◌⊎◌,
}
use cpp_decimal.Base.{
  Bool, true, false, not, leb, ◌==◌, if◌then◌else◌, pow-suc, one-le-pow, Bool-cases,
}
use cpp_decimal.Base.Int.{ℤ, pos, pos_part, ◌+ℤ◌, ◌-ℤ◌, ltb_ℤ}
use cpp_decimal.Context.{DecContext}
use cpp_decimal.Number.{DecNumber, is_negative}
use cpp_decimal.Number.Class.{DecClass, adjusted, is_normal, number_class}
use cpp_decimal.Number.Compare.Laws.{IsFinite}
use cpp_decimal.Number.Laws.{is_zero-eq}
use cpp_decimal.Units.{value}
use native.Mathlib.Nat.{pow-le-pow_right}

-- The magnitude of the number is that of 10 ^ emin or more.
abbrev pub reaches_least : DecNumber → DecContext → Bool
reaches_least dn set =
    leb (10 ^ pos_part (set.emin -ℤ dn.exponent))
      (value dn.lsu * 10 ^ pos_part (dn.exponent -ℤ set.emin))

-- The class that the value and the sign give.
abbrev pub class_of : (whole_zero least negative : Bool) → DecClass
class_of whole_zero least negative =
    if whole_zero
    then (if negative then DecClass.neg_zero else DecClass.pos_zero)
    else if least
    then (if negative then DecClass.neg_normal else DecClass.pos_normal)
    else if negative
    then DecClass.neg_subnormal
    else DecClass.pos_subnormal

-- A number of `suc d` digits is at least 10 ^ k when k is at most d, and is below it otherwise.
reaches_power : (v d k : ℕ) → 10 ^ d ≤ v → v < 10 ^ suc d → leb (10 ^ k) v ≡ leb k d
reaches_power v d k lo hi = elim (Bool-cases (leb k d)) [
  | inl within ↦ ground (arith, within, lo, smaller k d (ground (arith, within)))
  | inr beyond ↦ ground (arith, beyond, hi, smaller (suc d) k (ground (arith, beyond)))
]
  where
    smaller : (i j : ℕ) → i ≤ j → 10 ^ i ≤ 10 ^ j
    smaller i j h = pow-le-pow_right {n = 10} (omega arith) h

-- The same at a scale of `m`, which is 0 unless k is.
reaches_scaled :
    (v d k m : ℕ)
    → 10 ^ d ≤ v
    → v < 10 ^ suc d
    → (k ≡ 0) ⊎ (m ≡ 0)
    → leb (10 ^ k) (v * 10 ^ m) ≡ leb k d
reaches_scaled v d k m lo hi (inl e) = rw e (
    at_least_one v (10 ^ d) (10 ^ m) (one-le-pow d 10 (omega arith)) lo
      (one-le-pow m 10 (omega arith)))
  where
    at_least_one : (v p q : ℕ) → 1 ≤ p → p ≤ v → 1 ≤ q → leb 1 (v * q) ≡ leb 0 d
    at_least_one v p q h i j = grind arith
reaches_scaled v d k m lo hi (inr e) = rw (e, times_one v) (reaches_power v d k lo hi)
  where
    times_one : (n : ℕ) → n * 10 ^ 0 ≡ n
    times_one n = omega arith

below_least :
    (x e : ℤ) (digits d : ℕ)
    → digits ≡ suc d
    → ltb_ℤ (x +ℤ pos digits -ℤ pos 1) e ≡ not (leb (pos_part (e -ℤ x)) d)
below_least x e digits d h = ground arith

one_scale : (x e : ℤ) → (pos_part (e -ℤ x) ≡ 0) ⊎ (pos_part (x -ℤ e) ≡ 0)
one_scale x e = ground arith

least_of :
    (digits d v : ℕ)
    → digits ≡ suc d
    → (digits ≡ 1) ⊎ (10 ^ digits ≤ 10 * v)
    → (v == 0) ≡ false
    → 10 ^ d ≤ v
least_of digits zero v e h nz = ground arith
least_of digits (suc d) v e h nz = elim h [
  | inl one ↦ absurd (omega arith)
  | inr bound ↦ omega (arith, bound, grown)
]
  where
    grown : 10 ^ digits ≡ 10 * 10 ^ suc d
    grown = rw e (omega (arith, pow-suc 10 (suc d)))

is_normal-reaches_least :
    (dn : DecNumber) (set : DecContext)
    → IsFinite dn
    → (value dn.lsu == 0) ≡ false
    → ltb_ℤ (adjusted dn) set.emin ≡ not (reaches_least dn set)
is_normal-reaches_least dn set f nz = by_digits dn.digits refl
  where
    by_digits : (n : ℕ) → dn.digits ≡ n → ltb_ℤ (adjusted dn) set.emin ≡ not (reaches_least dn set)
    by_digits zero e = absurd (omega (arith, f.coefficient.some_digit))
    by_digits (suc d) e =
        below_least dn.exponent set.emin dn.digits d e
        ∙ sym (
            ap not (
              reaches_scaled (value dn.lsu) d _ _
                (least_of dn.digits d (value dn.lsu) e f.coefficient.leading nz)
                (rw (sym e) f.coefficient.fits) (one_scale dn.exponent set.emin)))

-- decNumberClass of a valid finite number: a zero, a normal number when the magnitude is 10 ^ emin or
-- more, and otherwise a subnormal one, each with the sign.
pub number_class_lem :
    (dn : DecNumber) (set : DecContext)
    → IsFinite dn
    → number_class dn set ≡ class_of (value dn.lsu == 0) (reaches_least dn set) (is_negative dn)
unfolding number_class is_normal
number_class_lem dn set f =
    let zero_eq = is_zero-eq dn f.coefficient f.plain in
    elim (Bool-cases (value dn.lsu == 0)) [
      | inl z ↦ rw (zero_eq, f.plain, z) refl
      | inr nz ↦
          rw (zero_eq, f.plain, nz, is_normal-reaches_least dn set f nz)
            (decided (reaches_least dn set) (is_negative dn))
    ]
  where
    decided :
        (least negative : Bool)
        → (if not (not least)
            then (if negative then DecClass.neg_normal else DecClass.pos_normal)
            else if negative
            then DecClass.neg_subnormal
            else DecClass.pos_subnormal)
          ≡ class_of false least negative
    decided true negative = refl
    decided false negative = refl
