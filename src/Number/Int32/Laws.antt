-- ===== src/Number/Int32/Laws.antt =====
-- The conversions between a number and a 32-bit integer are exact, or refused out of range.
use cpp_decimal.Base.{ℕ, ◌+◌, ◌/◌, ◌%◌, ◌^◌, ◌≤◌, ◌<◌, ◌≡◌, inl, inr, refl, arith}
use cpp_decimal.Base.{
  List, [], ◌∷◌, length, ◌∙◌, Bool-cases, Bool, true, false, not, ◌&&◌, ◌||◌, ltb, ◌==◌,
  if◌then◌else◌,
}
use cpp_decimal.Base.Int.{ℤ, pos, neg_ℕ, eqb_ℤ, leb_ℤ, ltb_ℤ}
use cpp_decimal.Context.{DecContext}
use cpp_decimal.Number.{DecNumber, IsCoefficient, is_special, is_negative, first_unit}
use native.Mathlib.Nat.{pow-le-pow_right}
use cpp_decimal.Number.Laws.{is_zero-eq}
use cpp_decimal.Units.{value, IsUnits, d2u-eq}
use cpp_decimal.Number.Int32.{
  collect, to_int32, to_uint32, exact, invalid, higher_units, Converted, x10,
}

pub collect-value :
    (u : ℕ) (us : List ℕ) (digits : ℕ)
    → IsUnits (u ∷ us)
    → length (u ∷ us) ≡ (digits + 1) / 2
    → 0 < digits
    → digits ≤ 10
    → collect us 2 digits (u / 10) ≡ value (u ∷ us) / 10
unfolding collect
collect-value u [] digits hu e p h = ground arith
collect-value u (v ∷ []) digits hu e p h = ground arith
collect-value u (v ∷ w ∷ []) digits hu e p h = ground arith
collect-value u (v ∷ w ∷ x ∷ []) digits hu e p h = ground arith
collect-value u (v ∷ w ∷ x ∷ y ∷ []) digits hu e p h = ground arith
collect-value u (v ∷ w ∷ x ∷ y ∷ z ∷ us) digits hu e p h = absurd (omega arith)

-- The signed value of a coefficient.
abbrev pub signed : DecNumber → ℤ
signed dn = if is_negative dn then neg_ℕ (value dn.lsu) else pos (value dn.lsu)

-- A finite integer that an Int holds.
abbrev pub fits_int32 : DecNumber → Bool
fits_int32 dn =
    not (is_special dn)
    && eqb_ℤ dn.exponent (pos 0)
    && leb_ℤ (neg_ℕ (2 ^ 31)) (signed dn)
    && ltb_ℤ (signed dn) (pos (2 ^ 31))

pub first_digit : (us : List ℕ) → first_unit us % 10 ≡ value us % 10
first_digit [] = refl
first_digit (u ∷ us) = omega arith

pub higher_digits :
    (dn : DecNumber)
    → IsCoefficient dn.digits dn.lsu
    → ¬ (10 < dn.digits)
    → collect (higher_units dn.lsu) 2 dn.digits (first_unit dn.lsu / 10) ≡ value dn.lsu / 10
higher_digits dn c short =
    by_units dn.lsu dn.digits c.units (c.same_length ∙ d2u-eq dn.digits) c.some_digit
      (omega (arith, short))
  where
    by_units :
        (us : List ℕ) (digits : ℕ)
        → IsUnits us
        → length us ≡ (digits + 1) / 2
        → 0 < digits
        → digits ≤ 10
        → collect (higher_units us) 2 digits (first_unit us / 10) ≡ value us / 10
    by_units [] digits hu e p h = absurd (omega arith)
    by_units (u ∷ us) digits hu e p h = collect-value u us digits hu e p h

-- More than ten digits are out of range.
pub long_value :
    (digits : ℕ) (us : List ℕ) → IsCoefficient digits us → 10 < digits → 10 ^ 10 ≤ value us
long_value digits us c h = omega (arith, c.leading, pow-le-pow_right {n = 10} (omega arith) h)

-- The test on the digit and the rest of the number decides the range.
by_range :
    (n : ℕ) (negative : Bool) (ok : ℤ → Converted) (bad : Converted)
    → (if ltb 214748364 (n / 10) || ((n / 10 == 214748364) && ltb 7 (n % 10))
        then (if negative && (n / 10 == 214748364) && (n % 10 == 8)
            then ok (neg_ℕ 0x80000000)
            else bad)
        else (let m = x10 (n / 10) + n % 10 in ok (if negative then neg_ℕ m else pos m)))
      ≡ (if leb_ℤ (neg_ℕ (2 ^ 31)) (if negative then neg_ℕ n else pos n)
            && ltb_ℤ (if negative then neg_ℕ n else pos n) (pos (2 ^ 31))
          then ok (if negative then neg_ℕ n else pos n)
          else bad)
by_range n true ok bad = ground arith
by_range n false ok bad = ground arith

too_long :
    (n : ℕ) (negative whole : Bool) (ok bad : Converted)
    → 10 ^ 10 ≤ n
    → bad ≡ (
        if whole
          && leb_ℤ (neg_ℕ (2 ^ 31)) (if negative then neg_ℕ n else pos n)
          && ltb_ℤ (if negative then neg_ℕ n else pos n) (pos (2 ^ 31))
        then ok
        else bad)
too_long n true whole ok bad h = ground arith
too_long n false whole ok bad h = ground arith

-- decNumberToInt32, on a number with a valid coefficient: its signed value, when it is a finite integer
-- of exponent 0 that an Int holds, and otherwise 0 and an invalid operation.
pub to_int32_lem :
    (dn : DecNumber) (set : DecContext)
    → IsCoefficient dn.digits dn.lsu
    → to_int32 dn set ≡ (if fits_int32 dn then exact set (signed dn) else invalid set)
unfolding to_int32
to_int32_lem dn set c = elim (Bool-cases (is_special dn)) [
  | inl special ↦ rw special refl
  | inr plain ↦ elim (Bool-cases (ltb 10 dn.digits)) [
    | inl long ↦
        rw (plain, long)
          (too_long (value dn.lsu) (is_negative dn) (eqb_ℤ dn.exponent (pos 0))
            (exact set (signed dn)) (invalid set)
            (long_value dn.digits dn.lsu c (ground (arith, long))))
    | inr short ↦ elim (Bool-cases (eqb_ℤ dn.exponent (pos 0))) [
      | inr scaled ↦ rw (plain, short, scaled) refl
      | inl whole ↦
          rw (plain, short, whole, first_digit dn.lsu, higher_digits dn c (ground (arith, short)))
            (by_range (value dn.lsu) (is_negative dn) (exact set) (invalid set))
    ]
  ]
]

-- A finite integer that a uInt holds; -0 is one.
abbrev pub fits_uint32 : DecNumber → Bool
fits_uint32 dn =
    not (is_special dn)
    && eqb_ℤ dn.exponent (pos 0)
    && (not (is_negative dn) || (value dn.lsu == 0))
    && ltb (value dn.lsu) (2 ^ 32)

by_unsigned_range :
    (n : ℕ) (negative : Bool) (ok : ℤ → Converted) (bad : Converted)
    → (if negative && not (n == 0)
        then bad
        else if ltb 429496729 (n / 10) || ((n / 10 == 429496729) && ltb 5 (n % 10))
        then bad
        else ok (pos ((x10 (n / 10) + n % 10) % 2 ^ 32)))
      ≡ (if (not negative || (n == 0)) && ltb n (2 ^ 32) then ok (pos n) else bad)
by_unsigned_range n true ok bad = ground arith
by_unsigned_range n false ok bad = ground arith

too_long_unsigned :
    (n : ℕ) (whole allowed : Bool) (ok bad : Converted)
    → 10 ^ 10 ≤ n
    → bad ≡ (if whole && allowed && ltb n (2 ^ 32) then ok else bad)
too_long_unsigned n whole allowed ok bad h = ground arith

-- decNumberToUInt32, on a number with a valid coefficient: its value, when it is a finite integer of
-- exponent 0 that a uInt holds, and otherwise 0 and an invalid operation.
pub to_uint32_lem :
    (dn : DecNumber) (set : DecContext)
    → IsCoefficient dn.digits dn.lsu
    → to_uint32 dn set ≡ (if fits_uint32 dn then exact set (pos (value dn.lsu)) else invalid set)
unfolding to_uint32
to_uint32_lem dn set c = elim (Bool-cases (is_special dn)) [
  | inl special ↦ rw special refl
  | inr plain ↦ elim (Bool-cases (ltb 10 dn.digits)) [
    | inl long ↦
        rw (plain, long)
          (too_long_unsigned (value dn.lsu) (eqb_ℤ dn.exponent (pos 0))
            (not (is_negative dn) || (value dn.lsu == 0)) (exact set (pos (value dn.lsu)))
            (invalid set) (long_value dn.digits dn.lsu c (ground (arith, long))))
    | inr short ↦ elim (Bool-cases (eqb_ℤ dn.exponent (pos 0))) [
      | inr scaled ↦ rw (plain, short, scaled) refl
      | inl whole ↦
          rw
            (
              is_zero-eq dn c plain,
              plain,
              short,
              whole,
              first_digit dn.lsu,
              higher_digits dn c (ground (arith, short)),
            )
            (by_unsigned_range (value dn.lsu) (is_negative dn) (exact set) (invalid set))
    ]
  ]
]
