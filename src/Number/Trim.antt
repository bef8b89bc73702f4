-- ===== src/Number/Trim.antt =====
-- src/decNumber.c: decTrim, which drops trailing zeros.
pub mod Laws
pub mod Bare
use cpp_decimal.Base.{
  ℕ, zero, suc, ◌+◌, ◌-◌, ◌*◌, List, [], ◌∷◌, take, Bool, has, ltb, ◌==◌, not, ◌&&◌, ◌||◌,
}
use cpp_decimal.Base.{if◌then◌else◌}
use cpp_decimal.Base.Int.{ℤ, pos, pos_part, ◌+ℤ◌, ◌-ℤ◌, ltb_ℤ, leb_ℤ, eqb_ℤ, wrap_int}
use cpp_decimal.Context.{DecContext}
use cpp_decimal.Number.{DecNumber, first_unit, is_special, is_zero}
use cpp_decimal.Units.{d2u, powers, quot10}
use cpp_decimal.Units.Shift.Least.{shift_to_least}

-- The trailing zeros, of at most `n` digits, from the digit `cut` of the first unit on. Where not all are to go, only
-- those of a fraction do.
pub trailing_zeros : Bool → ℕ → ℤ → ℕ → List ℕ → ℕ
trailing_zeros all zero exp cut us = 0
trailing_zeros all (suc n) exp cut [] = 0
trailing_zeros all (suc n) exp cut (u ∷ us) =
    let full = ltb 2 (cut + 1) in
    let fraction = not all && leb_ℤ exp (pos 0) in
    let rest =
      trailing_zeros all n (if fraction then exp +ℤ pos 1 else exp) (if full then 1 else cut + 1)
        (if full then us else u ∷ us) in
    if not (u - quot10 u cut * powers cut == 0)
    then 0
    else if fraction && eqb_ℤ exp (pos 0)
    then 0
    else suc rest

pub record Trimmed : Type 0 where
  pub number : DecNumber
  pub dropped : ℕ

-- `d` digits are dropped.
pub drop_digits : DecNumber → ℕ → Trimmed
drop_digits dn d = record {
  number = record dn {
    lsu = take (d2u (dn.digits - d)) (shift_to_least dn.lsu d);
    exponent = dn.exponent +ℤ pos d;
    digits = dn.digits - d;
  };
  dropped = d;
}

-- decTrim. The limit under clamping is an Int.
pub trim : DecNumber → DecContext → Bool → Bool → Trimmed
trim dn set all noclamp =
    if is_special dn || has (first_unit dn.lsu) 0x01
    then record { number = dn; dropped = 0 }
    else if is_zero dn
    then record { number = record dn { exponent = pos 0 }; dropped = 0 }
    else (let d = trailing_zeros all (dn.digits - 1) dn.exponent 1 dn.lsu in
        let maxd = wrap_int (set.emax -ℤ set.digits +ℤ pos 1 -ℤ dn.exponent) in
        if d == 0
        then record { number = dn; dropped = 0 }
        else if set.clamp && not noclamp
        then (if leb_ℤ maxd (pos 0)
            then record { number = dn; dropped = 0 }
            else drop_digits dn (if ltb_ℤ maxd (pos d) then pos_part maxd else d))
        else drop_digits dn d)
