-- ===== src/Round/Coeff.antt =====
-- src/decNumber.c: decSetCoeff and decCopyFit. A coefficient is cut to the context's digits, and what
-- is lost is kept as a residue: 0 exact, 1 to 4 below a half, 5 a half, 6 to 9 above a half.
pub mod Laws
pub mod Partial
use cpp_decimal.Base.{ℕ, zero, suc, ◌+◌, ◌-◌, ◌*◌, ◌/◌, ◌^◌, Bool, true, false, List, [], ◌∷◌}
use cpp_decimal.Base.{bit_or, ltb, leb, ◌==◌, if◌then◌else◌, get_or}
use cpp_decimal.Base.Int.{ℤ, pos, negsuc, pos_part, ◌+ℤ◌, ◌-ℤ◌, ltb_ℤ, leb_ℤ, eqb_ℤ}
use cpp_decimal.Context.{DecContext, rounded, inexact}
use cpp_decimal.Number.{DecNumber}
use cpp_decimal.Units.{quot10, u8}

-- A number on its way, with the residue and status accumulators.
pub record Pending : Type 0 where
  pub number : DecNumber
  pub residue : ℤ
  pub status : ℕ

-- The residue of a discarded digit, where a sticky one can still be added.
abbrev pub resmap : ℕ → ℕ
resmap d = get_or (0 ∷ 3 ∷ 3 ∷ 3 ∷ 3 ∷ 5 ∷ 7 ∷ 7 ∷ 7 ∷ 7 ∷ []) d 0

-- The copy loop: as many units as `count` digits need.
unfoldable pub copy_units : ℕ → List ℕ → List ℕ
copy_units zero us = []
copy_units (suc count) [] = []
copy_units (suc zero) (u ∷ us) = u ∷ []
copy_units (suc (suc count)) (u ∷ us) = u ∷ copy_units count us

-- The shift-copy loop at cut 1, for `count` digits: `quot` is the upper digit of the unit before, and
-- each unit written takes the lower digit of the next.
pub shift_copy : ℕ → ℕ → List ℕ → List ℕ
shift_copy quot zero us = u8 quot ∷ []
shift_copy quot (suc zero) us = u8 quot ∷ []
shift_copy quot (suc (suc count)) [] = u8 quot ∷ []
shift_copy quot (suc (suc zero)) (u ∷ us) =
    let rem = u - quot10 u 1 * 10 in u8 (u8 quot + rem * 10) ∷ []
shift_copy quot (suc (suc (suc count))) (u ∷ us) =
    let quot' = quot10 u 1 in
    let rem = u - quot' * 10 in u8 (u8 quot + rem * 10) ∷ shift_copy quot' (suc count) us

-- A shortened coefficient and its residue.
pub record Cut : Type 0 where
  pub digits : ℕ
  pub lsu : List ℕ
  pub residue : ℤ

-- The first discarded digit is the upper one of a unit, and the cut is between units.
pub cut_boundary : ℤ → ℕ → List ℕ → ℤ → Cut
cut_boundary digits u us residue =
    let residue' =
      if leb 50 u
      then (if ltb 50 u then pos 7 else residue +ℤ pos 5)
      else if u == 0
      then residue
      else pos 3 in
    if leb_ℤ digits (pos 0)
    then record { digits = 1; lsu = 0 ∷ []; residue = residue' }
    else record {
      digits = pos_part digits;
      lsu = copy_units (pos_part digits) us;
      residue = residue';
    }

-- The first discarded digit is the lower one of a unit.
pub cut_inside : ℤ → ℕ → List ℕ → ℤ → Cut
cut_inside digits u us residue =
    let temp = u * 6554 / 2 ^ 16 in
    let discard1 = u - temp * 10 in
    let residue' = residue +ℤ pos (resmap discard1) in
    if leb_ℤ digits (pos 0)
    then record { digits = 1; lsu = 0 ∷ []; residue = residue' }
    else record {
      digits = pos_part digits;
      lsu = shift_copy temp (pos_part digits) us;
      residue = residue';
    }

-- Partial discard: whole units are passed over, with a note of what is not 0, up to the one that has
-- the first discarded digit. `discard` is at least 1.
pub cut_coeff : ℤ → ℕ → List ℕ → ℤ → Cut
cut_coeff digits discard [] residue = record { digits = 1; lsu = 0 ∷ []; residue = residue }
cut_coeff digits zero (u ∷ us) residue = cut_inside digits u us residue
cut_coeff digits (suc zero) (u ∷ us) residue = cut_inside digits u us residue
cut_coeff digits (suc (suc zero)) (u ∷ us) residue = cut_boundary digits u us residue
cut_coeff digits (suc (suc (suc discard))) (u ∷ us) residue =
    cut_coeff digits (suc discard) us (if u == 0 then residue else pos 1)

-- Everything is discarded: the loop looks for a unit that is not 0.
pub sticky_scan : List ℕ → ℤ → ℤ
sticky_scan [] residue = residue
sticky_scan (u ∷ us) residue = if u == 0 then sticky_scan us residue else pos 1

pub set_coeff : DecNumber → DecContext → List ℕ → ℕ → ℤ → ℕ → Pending
set_coeff dn set lsu len residue status =
    let discard = pos len -ℤ set.digits in
    let flag = λ (s : ℕ) (r : ℤ) (f : ℕ). if eqb_ℤ r (pos 0) then s else bit_or s f in
    if leb_ℤ discard (pos 0)
    then record {
      number = record dn { digits = len; lsu = copy_units len lsu };
      residue = residue;
      status = flag status residue (bit_or inexact rounded);
    }
    else (let exponent = dn.exponent +ℤ discard in
        let residue1 = if ltb_ℤ (pos 1) residue then pos 1 else residue in
        if ltb_ℤ (pos len) discard
        then (let residue2 =
              if leb_ℤ residue1 (pos 0)
              then sticky_scan (copy_units len lsu) residue1
              else residue1 in
            record {
              number = record dn { digits = 1; exponent = exponent; lsu = 0 ∷ [] };
              residue = residue2;
              status = flag (bit_or status rounded) residue2 inexact;
            })
        else (let cut = cut_coeff set.digits (pos_part discard) lsu residue1 in
            record {
              number = record dn { digits = cut.digits; exponent = exponent; lsu = cut.lsu };
              residue = cut.residue;
              status = flag (bit_or status rounded) cut.residue inexact;
            }))

pub copy_fit : DecNumber → DecNumber → DecContext → ℤ → ℕ → Pending
copy_fit dest src set residue status =
    set_coeff (record dest { bits = src.bits; exponent = src.exponent }) set src.lsu src.digits
      residue status
