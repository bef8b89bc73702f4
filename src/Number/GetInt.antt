-- ===== src/Number/GetInt.antt =====
-- src/decNumber.c: decGetInt, the integer that a number stands for.
use cpp_decimal.Base.{ℕ, ◌+◌, ◌-◌, ◌*◌, ◌/◌, ◌%◌, ◌^◌, List, [], ◌∷◌, Option, none, some}
use cpp_decimal.Base.{Bool, ltb, leb, ◌==◌, if◌then◌else◌, ◌&&◌, ◌||◌, not}
use cpp_decimal.Base.Int.{ℤ, pos, neg_ℕ, pos_part, neg_part, ◌+ℤ◌, ◌-ℤ◌, leb_ℤ, ltb_ℤ, eqb_ℤ}
use cpp_decimal.Number.{DecNumber, is_negative, is_zero}
use cpp_decimal.Units.{powers, quot10}

-- BADINT for a number that is not an integer, and BIGODD and BIGEVEN for one that is too large.
pub data IntRead : Type 0 where
  bad_int : IntRead
  big_odd : IntRead
  big_even : IntRead
  int : ℤ → IntRead

-- The bits of an Int, and the Int that they stand for.
abbrev int_bits : ℕ → ℕ
int_bits n = n % 2 ^ 32

abbrev s32 : ℕ → ℤ
s32 n = if ltb n (2 ^ 31) then pos n else neg_ℕ (2 ^ 32 - n)

-- Division of an Int by a power of ten.
abbrev quotient : ℤ → ℕ → ℤ
quotient x p = if ltb_ℤ x (pos 0) then neg_ℕ (neg_part x / p) else pos (pos_part x / p)

-- The accumulator, the digits in it, and the units that are left, of which `last` comes before.
pub record Gathered : Type 0 where
  pub total : ℕ
  pub got : ℕ
  pub last : ℕ
  pub rest : List ℕ

-- The fraction: whole units first, then a part of one. `none` is BADINT.
pub discard_fraction : ℕ → List ℕ → Option Gathered
discard_fraction count [] = some (record { total = 0; got = 0; last = 0; rest = [] })
discard_fraction count (u ∷ us) =
    let rest = discard_fraction (count - 2) us in
    let part = quot10 u count in
    if leb 2 count
    then (if u == 0 then rest else none)
    else if count == 0
    then some (record { total = 0; got = 0; last = 0; rest = u ∷ us })
    else if u - part * powers count == 0
    then some (record { total = part; got = 2 - count; last = u; rest = us })
    else none

-- The unit of the last digit, when no digit is there.
pub ensure_first : Gathered → Gathered
ensure_first g =
    if g.got == 0
    then (elim g.rest [ [] ↦ g | u ∷ us ↦ record { total = u; got = 2; last = u; rest = us } ])
    else g

-- The remaining units, up to `ilength` digits.
pub gather : ℤ → ℕ → ℕ → ℕ → List ℕ → Gathered
gather ilength total got last [] = record { total = total; got = got; last = last; rest = [] }
gather ilength total got last (u ∷ us) =
    let more = ltb_ℤ (pos got) ilength in
    let rest = gather ilength (int_bits (total + int_bits (u * powers got))) (got + 2) u us in
    if more then rest else record { total = total; got = got; last = last; rest = u ∷ us }

-- Whether ten digits are too large for an Int.
pub wrapped : Bool → Gathered → Bool
wrapped negative g =
    let x = s32 g.total in
    not (eqb_ℤ (quotient x (powers (g.got - 2))) (pos g.last))
    || (negative && ltb_ℤ (pos 1999999997) x)
    || (not negative && ltb_ℤ (pos 999999999) x)

abbrev pub too_big : ℕ → IntRead
too_big n = if n % 2 == 1 then IntRead.big_odd else IntRead.big_even

pub read_int : Bool → ℤ → Gathered → IntRead
read_int negative ilength first =
    if ltb_ℤ ilength (pos 11)
    then (let g = gather ilength first.total first.got first.last first.rest in
        if eqb_ℤ ilength (pos 10) && wrapped negative g
        then too_big first.total
        else (let x = s32 g.total in IntRead.int (if negative then pos 0 -ℤ x else x)))
    else too_big first.total

-- decGetInt
pub get_int : DecNumber → IntRead
get_int dn =
    if is_zero dn
    then IntRead.int (pos 0)
    else (let ilength = pos dn.digits +ℤ dn.exponent in
        let start : Option Gathered =
          if leb_ℤ (pos 0) dn.exponent
          then some (record { total = 0; got = pos_part dn.exponent; last = 0; rest = dn.lsu })
          else discard_fraction (neg_part dn.exponent) dn.lsu in
        elim start [
          | none ↦ IntRead.bad_int
          | some g ↦ read_int (is_negative dn) ilength (ensure_first g)
        ])
