-- ===== src/Number/Int32/Store.antt =====
-- The conversions from a 32-bit integer store its value, and the conversions back give it again.
use cpp_decimal.Base.{ℕ, zero, suc, ◌*◌, ◌/◌, ◌%◌, ◌^◌, ◌<◌, ◌≡◌, ◌≢◌, inl, refl, arith}
use cpp_decimal.Base.{List, [], ◌∷◌, pow-suc, ◌∙◌, true, false, ◌==◌, if◌then◌else◌}
use cpp_decimal.Base.Int.{ℤ, pos, neg_ℕ, eqb_ℤ, ltb_ℤ}
use native.Mathlib.Decide.{ℕ_discrete}
use cpp_decimal.Context.{DecContext}
use cpp_decimal.Number.{DecNumber, IsCoefficient, is_special}
use cpp_decimal.Units.Compare.Laws.{IsTrimmed}
use cpp_decimal.Units.{value, IsUnits}
use cpp_decimal.Number.Int32.{units_of, to_int32, to_uint32, exact}
use cpp_decimal.Units.{d2u}
use cpp_decimal.Base.Int.{negsuc, ◌≤ℤ◌, ◌<ℤ◌}
use cpp_decimal.Number.Int32.Laws.{signed, to_int32_lem, to_uint32_lem}
use cpp_decimal.Number.Int32.{from_int32, from_uint32}
use cpp_decimal.Number.Digits.Laws.{get_digits-IsCoefficient}

not_zero : (n : ℕ) → n ≢ 0 → (n == 0) ≡ false
not_zero n h = ground arith

-- What the unit loop stores, when the fuel is enough.
pub record IsStored (n : ℕ) (us : List ℕ) : Type 0 where
  pub total : value us ≡ n
  pub units : IsUnits us
  pub none_left : n ≡ 0 → us ≡ []
  pub top : n ≢ 0 → IsTrimmed us

top_unit : (n : ℕ) (us : List ℕ) → n ≢ 0 → IsStored (n / 100) us → IsTrimmed (n % 100 ∷ us)
top_unit n [] ne s = omega (arith, ne, s.total)
top_unit n (v ∷ us) ne s = elim (ℕ_discrete (n / 100) 0) [
  | yes z ↦ absurd (cc (s.none_left z))
  | no m ↦ s.top m
]

units_of-IsStored : (fuel n : ℕ) → n < 100 ^ fuel → IsStored n (units_of fuel n)
unfolding units_of
units_of-IsStored zero n h = record {
  total = omega arith;
  units = omega arith;
  none_left = λ e. refl;
  top = λ ne. absurd (omega arith);
}
units_of-IsStored (suc fuel) n h = elim (ℕ_discrete n 0) [
  | yes e ↦ rw e (record {
    total = refl;
    units = omega arith;
    none_left = λ z. refl;
    top = λ ne. absurd (ne refl);
  })
  | no ne ↦
      let rest = units_of-IsStored fuel (n / 100) (omega (arith, h, pow-suc 100 fuel)) in
      rw (not_zero n ne) (record {
        total = omega (arith, rest.total);
        units = (omega arith, rest.units);
        none_left = λ z. absurd (ne z);
        top = λ _. top_unit n (units_of fuel (n / 100)) ne rest;
      })
]

-- A finite number that is the whole number `n`.
pub record IsWhole (dn : DecNumber) (n : ℕ) : Type 0 where
  pub coefficient : IsCoefficient dn.digits dn.lsu
  pub bits : dn.bits ≡ 0
  pub exponent : dn.exponent ≡ pos 0
  pub total : value dn.lsu ≡ n

zero-IsCoefficient : IsCoefficient 1 (0 ∷ [])
unfolding d2u
zero-IsCoefficient = record {
  units = omega arith;
  same_length = refl;
  some_digit = omega arith;
  fits = omega arith;
  leading = inl refl;
}

pub from_uint32_lem : (n : ℕ) → n < 2 ^ 32 → IsWhole (from_uint32 n) n
unfolding from_uint32
from_uint32_lem n h = elim (ℕ_discrete n 0) [
  | yes e ↦
      rw e (record { coefficient = zero-IsCoefficient; bits = refl; exponent = refl; total = refl })
  | no ne ↦
      let stored = units_of-IsStored 5 n (omega arith) in
      rw (not_zero n ne) (record {
        coefficient = get_digits-IsCoefficient (units_of 5 n) stored.units (stored.top ne);
        bits = refl;
        exponent = refl;
        total = stored.total;
      })
]

-- A finite number that is the integer `x`.
pub record IsInteger (dn : DecNumber) (x : ℤ) : Type 0 where
  pub coefficient : IsCoefficient dn.digits dn.lsu
  pub plain : is_special dn ≡ false
  pub exponent : dn.exponent ≡ pos 0
  pub total : signed dn ≡ x

-- decNumberFromInt32 on any Int, the most negative one included.
pub from_int32_lem : (x : ℤ) → neg_ℕ (2 ^ 31) ≤ℤ x → x <ℤ pos (2 ^ 31) → IsInteger (from_int32 x) x
unfolding from_int32
from_int32_lem (pos n) lo hi =
    let s = from_uint32_lem n (omega arith) in
    rw (not_below n) (record {
      coefficient = s.coefficient;
      plain = rw s.bits refl;
      exponent = s.exponent;
      total = rw (s.bits, s.total) refl;
    })
  where
    not_below : (n : ℕ) → ltb_ℤ (pos n) (pos 0) ≡ false
    not_below n = ground arith
from_int32_lem (negsuc n) lo hi =
    let s = from_uint32_lem (suc n) (omega arith) in
    rw (below n, magnitude n)
      (record {
        coefficient = s.coefficient;
        plain = refl;
        exponent = s.exponent;
        total = rw s.total (ground arith);
      })
  where
    below : (n : ℕ) → ltb_ℤ (negsuc n) (pos 0) ≡ true
    below n = ground arith

    magnitude :
        (n : ℕ) → (if eqb_ℤ (negsuc n) (neg_ℕ 0x80000000) then 1073741824 * 2 else suc n) ≡ suc n
    magnitude n = ground arith

-- Any Int comes back from its number, with no condition raised.
pub to_int32-from_int32 :
    (x : ℤ) (set : DecContext)
    → neg_ℕ (2 ^ 31) ≤ℤ x
    → x <ℤ pos (2 ^ 31)
    → to_int32 (from_int32 x) set ≡ exact set x
to_int32-from_int32 x set lo hi =
    let s = from_int32_lem x lo hi in
    to_int32_lem (from_int32 x) set s.coefficient ∙ rw (s.plain, s.exponent, s.total) (ground arith)

-- Any uInt comes back from its number.
pub to_uint32-from_uint32 :
    (n : ℕ) (set : DecContext) → n < 2 ^ 32 → to_uint32 (from_uint32 n) set ≡ exact set (pos n)
to_uint32-from_uint32 n set h =
    let s = from_uint32_lem n h in
    to_uint32_lem (from_uint32 n) set s.coefficient
    ∙ rw (s.bits, s.exponent, s.total) (ground arith)
