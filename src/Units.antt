-- ===== src/Units.antt =====
-- src/decNumber.c and src/decNumberLocal.h: coefficients as arrays of units. The build has DECDPUN at 2:
-- a unit is a `uint8_t` below 100, and holds two decimal digits. An array is the list of its units
-- in use, least significant first.
pub mod AddSub
pub mod Compare
pub mod Shift
use cpp_decimal.Base.{ℕ, ◌+◌, ◌-◌, ◌*◌, ◌/◌, ◌%◌, ◌^◌, ◌≤◌, ◌<◌, ◌≡◌, refl, arith}
use cpp_decimal.Base.{List, [], ◌∷◌, Bool, true, get_or, leb, ◌==◌, if◌then◌else◌, pow-suc}
use native.Mathlib.Decide.{dec_lt}
use cpp_decimal.Base.{holds_under, holds_under-at, ==_iff, length, suc}

-- The number that an array stands for.
abbrev pub value : List ℕ → ℕ
value [] = 0
value (u ∷ us) = u + 100 * value us

-- Every unit has two digits.
abbrev pub IsUnits : List ℕ → Type 0
IsUnits [] = Unit {0}
IsUnits (u ∷ us) = (u < 100) × IsUnits us

-- DECPOWERS
abbrev pub powers : ℕ → ℕ
powers n =
    get_or (1 ∷ 10 ∷ 100 ∷ 1000 ∷ 10000 ∷ 100000 ∷ 1000000 ∷ 10000000 ∷ 100000000 ∷ 1000000000 ∷ [])
      n 0

-- The table `multies` of reciprocals.
abbrev pub multies : ℕ → ℕ
multies n = get_or (131073 ∷ 26215 ∷ 5243 ∷ 1049 ∷ 210 ∷ []) n 0

-- QUOT10: the quotient of `u` by 10 ** n, by a multiplication.
abbrev pub quot10 : ℕ → ℕ → ℕ
quot10 u n = u / 2 ^ n * multies n / 2 ^ 17

-- A value stored into a unit.
abbrev pub u8 : ℕ → ℕ
u8 n = n % 256

-- D2U: the units that hold `d` digits, from the table or by division.
abbrev d2u_table : List ℕ
d2u_table =
    0 ∷ 1 ∷ 1 ∷ 2 ∷ 2 ∷ 3 ∷ 3 ∷ 4 ∷ 4 ∷ 5 ∷ 5 ∷ 6 ∷ 6 ∷ 7 ∷ 7 ∷ 8 ∷ 8 ∷ 9 ∷ 9 ∷ 10 ∷ 10 ∷ 11 ∷ 11
    ∷ 12 ∷ 12 ∷ 13 ∷ 13 ∷ 14 ∷ 14 ∷ 15 ∷ 15 ∷ 16 ∷ 16 ∷ 17 ∷ 17 ∷ 18 ∷ 18 ∷ 19 ∷ 19 ∷ 20 ∷ 20 ∷ 21
    ∷ 21 ∷ 22 ∷ 22 ∷ 23 ∷ 23 ∷ 24 ∷ 24 ∷ 25 ∷ []

unfoldable pub d2u : ℕ → ℕ
d2u d = if leb d 49 then get_or d2u_table d 0 else (d + 1) / 2

-- MSUDIGITS: the digits in the most significant unit.
abbrev pub msu_digits : ℕ → ℕ
msu_digits d = d - (d2u d - 1) * 2

d2u_check : holds_under (λ d. get_or d2u_table d 0 == (d + 1) / 2) 50 ≡ true
unfolding holds_under
d2u_check = refl

pub d2u-eq : (d : ℕ) → d2u d ≡ (d + 1) / 2
unfolding d2u
d2u-eq d = elim (dec_lt d 50) [
  | yes h ↦ ground (
    arith,
    ==_iff _ _,
    holds_under-at (λ d. get_or d2u_table d 0 == (d + 1) / 2) 50 d h d2u_check,
  )
  | no h ↦ ground arith
]

pub quot10_one : (u : ℕ) → u < 10000 → quot10 u 1 ≡ u / 10
quot10_one u h = omega arith

pub quot10_two : (u : ℕ) → u < 10000 → quot10 u 2 ≡ u / 100
quot10_two u h = omega arith

-- An array of `n` units stands for a number below 100 ^ n.
pub value-lt : (us : List ℕ) → IsUnits us → value us < 100 ^ length us
value-lt [] h = omega arith
value-lt (u ∷ us) h = omega (arith, value-lt us h.1, pow-suc 100 (length us))
