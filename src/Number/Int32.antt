-- ===== src/Number/Int32.antt =====
-- src/decNumber.c: the conversions between a number and a 32-bit integer. An `Int` is an integer, a
-- `uInt` a number below 2 ^ 32.
pub mod Laws
pub mod Store
use cpp_decimal.Base.{ℕ, zero, suc, ◌+◌, ◌-◌, ◌*◌, ◌/◌, ◌%◌, ◌^◌, List, [], ◌∷◌, ltb, ◌==◌}
use cpp_decimal.Base.{Bool, true, false, if◌then◌else◌, ◌&&◌, ◌||◌, not}
use cpp_decimal.Base.Int.{ℤ, pos, negsuc, pos_part, neg_part, neg_ℕ, eqb_ℤ, ltb_ℤ}
use cpp_decimal.Context.{DecContext, set_status, invalid_operation}
use cpp_decimal.Number.{
  DecNumber, is_special, is_negative, is_zero, zero_number, neg_bit, first_unit,
}
use cpp_decimal.Number.Digits.{get_digits}
use cpp_decimal.Units.{powers}

-- The loop that stores the units of `uin`; `fuel` bounds the units.
pub units_of : ℕ → ℕ → List ℕ
units_of zero uin = []
units_of (suc fuel) uin =
    let rest = units_of fuel (uin / 100) in if uin == 0 then [] else uin % 100 ∷ rest

-- Five units hold any 32-bit number.
pub from_uint32 : ℕ → DecNumber
from_uint32 uin =
    if uin == 0
    then zero_number
    else (let lsu = units_of 5 uin in record zero_number { digits = get_digits lsu; lsu = lsu })

-- BADINT is the most negative Int, whose magnitude is special.
pub from_int32 : ℤ → DecNumber
from_int32 x =
    let unsig =
      if ltb_ℤ x (pos 0)
      then (if eqb_ℤ x (neg_ℕ 0x80000000) then 1073741824 * 2 else neg_part x)
      else pos_part x in
    let dn = from_uint32 unsig in if ltb_ℤ x (pos 0) then record dn { bits = neg_bit } else dn

-- An integer with what a failure does to the context.
pub record Converted : Type 0 where
  pub number : ℤ
  pub context : DecContext
  pub raised : Bool

abbrev pub invalid : DecContext → Converted
invalid set =
    let s = set_status set invalid_operation in
    record { number = pos 0; context = s.context; raised = s.raised }

abbrev pub exact : DecContext → ℤ → Converted
exact set x = record { number = x; context = set; raised = false }

-- The units above the first, added into `hi`.
pub collect : List ℕ → ℕ → ℕ → ℕ → ℕ
collect [] d digits hi = hi
collect (u ∷ us) d digits hi =
    let rest = collect us (d + 2) digits ((hi + u * powers (d - 1)) % 2 ^ 32) in
    if ltb d digits then rest else hi

abbrev pub higher_units : List ℕ → List ℕ
higher_units [] = []
higher_units (u ∷ us) = us

-- X10
abbrev pub x10 : ℕ → ℕ
x10 n = (n * 2 + n * 8) % 2 ^ 32

pub to_int32 : DecNumber → DecContext → Converted
to_int32 dn set =
    if is_special dn || ltb 10 dn.digits || not (eqb_ℤ dn.exponent (pos 0))
    then invalid set
    else (let lo = first_unit dn.lsu % 10 in
        let hi = collect (higher_units dn.lsu) 2 dn.digits (first_unit dn.lsu / 10) in
        if ltb 214748364 hi || (hi == 214748364 && ltb 7 lo)
        then (if is_negative dn && (hi == 214748364) && (lo == 8)
            then exact set (neg_ℕ 0x80000000)
            else invalid set)
        else (let n = x10 hi + lo in exact set (if is_negative dn then neg_ℕ n else pos n)))

pub to_uint32 : DecNumber → DecContext → Converted
to_uint32 dn set =
    if is_special dn
      || ltb 10 dn.digits
      || not (eqb_ℤ dn.exponent (pos 0))
      || (is_negative dn && not (is_zero dn))
    then invalid set
    else (let lo = first_unit dn.lsu % 10 in
        let hi = collect (higher_units dn.lsu) 2 dn.digits (first_unit dn.lsu / 10) in
        if ltb 429496729 hi || (hi == 429496729 && ltb 5 lo)
        then invalid set
        else exact set (pos ((x10 hi + lo) % 2 ^ 32)))
