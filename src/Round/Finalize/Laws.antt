-- ===== src/Round/Finalize/Laws.antt =====
-- What decFinalize leaves alone: an exact result within the exponent range of the context.
use cpp_decimal.Base.{ℕ, ◌≡◌, arith, Bool, true, false, if◌then◌else◌, some}
use cpp_decimal.Base.Int.{ℤ, pos, ◌+ℤ◌, ◌-ℤ◌, ◌≤ℤ◌, ltb_ℤ, leb_ℤ}
use cpp_decimal.Context.{DecContext}
use cpp_decimal.Number.{DecNumber}
use cpp_decimal.Number.Compare.Total.{compare_numbers-total}
use cpp_decimal.Round.Finalize.{check_top, finalize, finalize_boundary, finish, nmin, round_pending}
use cpp_decimal.Round.Overflow.{Settled}
use cpp_decimal.Round.Apply.{apply_round}
use cpp_decimal.Round.Apply.Laws.{apply_round-zero}
use cpp_decimal.Base.{Bool-cases, ==_iff, refl, sym, inl, inr}
use cpp_decimal.Base.Int.{eqb_ℤ, eq_of_parts}

check_top_keeps :
    (s : Settled) (set : DecContext)
    → s.number.exponent ≤ℤ set.emax -ℤ set.digits +ℤ pos 1
    → check_top s set ≡ s
unfolding check_top
check_top_keeps s set h = ground (arith, h)

boundary_keeps :
    (c : ℤ) (dn : DecNumber) (set : DecContext) (status : ℕ)
    → dn.exponent ≤ℤ set.emax -ℤ set.digits +ℤ pos 1
    → finalize_boundary (some c) dn set (pos 0) status ≡ record { number = dn; status = status }
unfolding finalize_boundary round_pending
boundary_keeps c dn set status h = check_top_keeps (record { number = dn; status = status }) set h

-- decFinalize of an exact result, with an exponent that needs neither subnormals nor a clamp.
pub finalize_keeps :
    (dn : DecNumber) (set : DecContext) (status : ℕ)
    → set.emin -ℤ pos dn.digits +ℤ pos 1 ≤ℤ dn.exponent
    → dn.exponent ≤ℤ set.emax -ℤ set.digits +ℤ pos 1
    → finalize true dn set (pos 0) status ≡ record { number = dn; status = status }
unfolding finalize round_pending
finalize_keeps dn set status lo hi =
    let (c, e) = compare_numbers-total dn (nmin set) true in
    rw (not_below _ _ lo, e) (by_test c (leb_ℤ dn.exponent (set.emin -ℤ pos dn.digits +ℤ pos 1)))
  where
    not_below : (x y : ℤ) → x ≤ℤ y → ltb_ℤ y x ≡ false
    not_below x y h = ground arith

    by_test :
        (c : ℤ) (b : Bool)
        → (if b
            then finalize_boundary (some c) dn set (pos 0) status
            else check_top (record { number = dn; status = status }) set)
          ≡ record { number = dn; status = status }
    by_test c true = boundary_keeps c dn set status hi
    by_test c false = check_top_keeps (record { number = dn; status = status }) set hi

-- decFinish of a result in range, in a context for full arithmetic: with storage, a residue of 0, and an
-- exponent from emin less the digits after the first to emax less the precision plus 1, the number and
-- the status stay as they are.
pub finish_keeps :
    (dn : DecNumber) (set : DecContext) (status : ℕ)
    → set.extended ≡ true
    → set.emin -ℤ pos dn.digits +ℤ pos 1 ≤ℤ dn.exponent
    → dn.exponent ≤ℤ set.emax -ℤ set.digits +ℤ pos 1
    → finish true dn set (pos 0) status ≡ record { number = dn; status = status }
unfolding finish
finish_keeps dn set status e lo hi = simp e (finalize_keeps dn set status lo hi)

-- decFinish of a number above the subnormal boundary, where the rounded result is in range: it is
-- rounded, and that is all.
pub finish_rounds :
    (dn : DecNumber) (set : DecContext) (residue : ℤ) (status : ℕ)
    → set.extended ≡ true
    → set.emin -ℤ pos dn.digits +ℤ pos 2 ≤ℤ dn.exponent
    → (apply_round dn set residue status).number.exponent ≤ℤ set.emax -ℤ set.digits +ℤ pos 1
    → finish true dn set residue status ≡ apply_round dn set residue status
unfolding finish finalize round_pending
finish_rounds dn set residue status e lo hi = simp e (
    rw (not_below _ _ lo, not_at _ _ lo)
      (rw pending (check_top_keeps (apply_round dn set residue status) set hi)))
  where
    not_below : (x y : ℤ) → x +ℤ pos 2 ≤ℤ y → ltb_ℤ y (x +ℤ pos 1) ≡ false
    not_below x y h = ground (arith, h)

    not_at : (x y : ℤ) → x +ℤ pos 2 ≤ℤ y → leb_ℤ y (x +ℤ pos 1) ≡ false
    not_at x y h = ground (arith, h)

    pending :
        (if eqb_ℤ residue (pos 0)
          then record { number = dn; status = status }
          else apply_round dn set residue status)
        ≡ apply_round dn set residue status
    pending = elim (Bool-cases (eqb_ℤ residue (pos 0))) [
      | inl z ↦ rw z (
          sym
            (rw (eq_of_parts residue (pos 0) ((==_iff _ _).0 z)) (apply_round-zero dn set status)))
      | inr nz ↦ rw nz refl
    ]
