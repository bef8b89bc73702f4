-- ===== src/Round/Coeff/Partial.antt =====
-- decCopyFit where some digits have to go, and some stay, and decSetCoeff where none has to.
use cpp_decimal.Base.{List, ◌≤◌, true}
use cpp_decimal.Base.{ℕ, suc, ◌+◌, ◌≡◌, arith, false, if◌then◌else◌, bit_or}
use cpp_decimal.Base.Int.{pos, ◌+ℤ◌, ◌-ℤ◌, ltb_ℤ, leb_ℤ, eqb_ℤ}
use cpp_decimal.Context.{DecContext, rounded, inexact}
use cpp_decimal.Number.{DecNumber, IsCoefficient}
use cpp_decimal.Round.Coeff.Laws.{copy_units_all}
use cpp_decimal.Units.{d2u-eq}
use cpp_decimal.Base.{refl, sym, ◌∙◌}
use cpp_decimal.Round.Coeff.{cut_coeff, set_coeff, copy_fit, copy_units}

-- What decSetCoeff gives where `suc d` digits have to go.
pub set_coeff_cut :
    (dn : DecNumber) (set : DecContext) (lsu : List ℕ) (len status p d : ℕ)
    → set.digits ≡ pos (suc p)
    → len ≡ suc p + suc d
    → let cut = cut_coeff (pos (suc p)) (suc d) lsu (pos 0) in
      set_coeff dn set lsu len (pos 0) status ≡ record {
        number = record {
          digits = cut.digits;
          exponent = dn.exponent +ℤ pos (suc d);
          bits = dn.bits;
          lsu = cut.lsu;
        };
        residue = cut.residue;
        status =
            if eqb_ℤ cut.residue (pos 0)
            then bit_or status rounded
            else bit_or (bit_or status rounded) inexact;
      }
unfolding set_coeff
set_coeff_cut dn set lsu len status p d e f = rw (e, f, discard p d, some_left p d, not_all p d)
  where
    discard : (p d : ℕ) → pos (suc p + suc d) -ℤ pos (suc p) ≡ pos (suc d)
    discard p d = ground arith

    some_left : (p d : ℕ) → leb_ℤ (pos (suc d)) (pos 0) ≡ false
    some_left p d = ground arith

    not_all : (p d : ℕ) → ltb_ℤ (pos (suc p + suc d)) (pos (suc d)) ≡ false
    not_all p d = ground arith

-- What copy_fit gives where `suc d` digits have to go.
pub copy_fit_cut :
    (dest src : DecNumber) (set : DecContext) (status p d : ℕ)
    → set.digits ≡ pos (suc p)
    → src.digits ≡ suc p + suc d
    → let cut = cut_coeff (pos (suc p)) (suc d) src.lsu (pos 0) in
      copy_fit dest src set (pos 0) status ≡ record {
        number = record {
          digits = cut.digits;
          exponent = src.exponent +ℤ pos (suc d);
          bits = src.bits;
          lsu = cut.lsu;
        };
        residue = cut.residue;
        status =
            if eqb_ℤ cut.residue (pos 0)
            then bit_or status rounded
            else bit_or (bit_or status rounded) inexact;
      }
unfolding copy_fit
copy_fit_cut dest src set status p d e f =
    set_coeff_cut (record dest { bits = src.bits; exponent = src.exponent }) set src.lsu src.digits
      status p d e f

-- A coefficient that is not longer than the precision is copied.
pub set_coeff_short :
    (dn : DecNumber) (set : DecContext) (lsu : List ℕ) (len status p : ℕ)
    → set.digits ≡ pos p
    → len ≤ p
    → set_coeff dn set lsu len (pos 0) status ≡ record {
      number = record dn { digits = len; lsu = copy_units len lsu };
      residue = pos 0;
      status = status;
    }
unfolding set_coeff
set_coeff_short dn set lsu len status p e h = rw (e, none_left len p h)
  where
    none_left : (len p : ℕ) → len ≤ p → leb_ℤ (pos len -ℤ pos p) (pos 0) ≡ true
    none_left len p h = ground arith

-- A number that is not longer than the precision is copied by decCopyFit.
pub copy_fit_short :
    (dest src : DecNumber) (set : DecContext) (status p : ℕ)
    → set.digits ≡ pos p
    → src.digits ≤ p
    → IsCoefficient src.digits src.lsu
    → copy_fit dest src set (pos 0) status
      ≡ record { number = src; residue = pos 0; status = status }
unfolding copy_fit
copy_fit_short dest src set status p e h c =
    rw
      (
        set_coeff_short (record dest { bits = src.bits; exponent = src.exponent }) set src.lsu
            src.digits status p e h,
        copy_units_all src.digits src.lsu (sym (c.same_length ∙ d2u-eq src.digits)),
      )
      refl
