-- ===== src/Round/Coeff/Laws.antt =====
-- decSetCoeff: what is kept is the quotient, and the residue describes the remainder.
use cpp_decimal.Base.{ℕ, zero, suc, ◌+◌, ◌-◌, ◌*◌, ◌/◌, ◌%◌, ◌^◌, ◌≤◌, ◌<◌, ◌≡◌, refl, arith, ap}
use cpp_decimal.Base.{false, List, [], ◌∷◌, pow-suc, ◌==◌, if◌then◌else◌}
use mathlib.Core.Path.{subst}
use cpp_decimal.Base.{Bool-cases, inl, inr, one-le-pow, length}
use cpp_decimal.Base.Int.{ℤ, pos, ◌+ℤ◌, ◌≤ℤ◌, leb_ℤ}
use cpp_decimal.Units.{value, IsUnits, quot10}
use cpp_decimal.Round.Coeff.{
  Cut, copy_units, shift_copy, cut_boundary, cut_inside, cut_coeff, resmap,
}

-- What a residue says of `x`, twice the remainder and one more for a sticky digit, against `p`: it is
-- 0 for nothing, 1 to 4 for less than a half, 5 for a half and 6 to 9 for more than a half.
pub record IsResidue (x p : ℕ) (r : ℤ) : Type 0 where
  pub exact : x ≡ 0 → r ≡ pos 0
  pub below : 0 < x → x < p → (pos 1 ≤ℤ r) × (r ≤ℤ pos 4)
  pub half : 0 < x → x ≡ p → r ≡ pos 5
  pub above : p < x → (pos 6 ≤ℤ r) × (r ≤ℤ pos 9)

-- `kept` is the quotient of `n` by `p`, and `r` the residue of the remainder and the sticky `s`.
pub record IsCutOf (n p s : ℕ) (cut : Cut) : Type 0 where
  pub rem : ℕ
  pub rem_lt : rem < p
  pub split : n ≡ value cut.lsu * p + rem
  pub units : IsUnits cut.lsu
  pub residue : IsResidue (2 * rem + s) p cut.residue

pub copy_units_lem :
    (count : ℕ) (us : List ℕ)
    → IsUnits us
    → value us < 10 ^ count
    → (value (copy_units count us) ≡ value us) × IsUnits (copy_units count us)
unfolding copy_units
copy_units_lem zero us hu h = omega arith
copy_units_lem (suc count) [] hu h = (refl, tt)
copy_units_lem (suc zero) (u ∷ us) hu h = omega arith
copy_units_lem (suc (suc count)) (u ∷ us) hu h =
    let rest =
      copy_units_lem count us hu.1 (omega (arith, pow-suc 10 (suc count), pow-suc 10 count)) in
    (omega (arith, rest.0), (hu.0, rest.1))

shift_copy_lem :
    (quot count : ℕ) (us : List ℕ)
    → quot < 10
    → IsUnits us
    → quot + 10 * value us < 10 ^ suc count
    → (value (shift_copy quot (suc count) us) ≡ quot + 10 * value us)
      × IsUnits (shift_copy quot (suc count) us)
unfolding shift_copy
shift_copy_lem quot zero us hq hu h = omega arith
shift_copy_lem quot (suc count) [] hq hu h = omega arith
shift_copy_lem quot (suc zero) (u ∷ us) hq hu h = omega arith
shift_copy_lem quot (suc (suc count)) (u ∷ us) hq hu h =
    let rest =
      shift_copy_lem (quot10 u 1) count us (omega (arith, hu.0)) hu.1
        (omega (arith, pow-suc 10 (suc (suc count)), pow-suc 10 (suc count), hu.0)) in
    (omega (arith, rest.0, hu.0), (omega (arith, hu.0), rest.1))

resmap-IsResidue : (g s : ℕ) → g < 10 → s ≤ 1 → IsResidue (2 * g + s) 10 (pos s +ℤ pos (resmap g))
resmap-IsResidue g s hg hs = ground arith

not_empty : (p : ℕ) → leb_ℤ (pos (suc p)) (pos 0) ≡ false
not_empty p = ground arith

-- The first discarded digit is the lower one of its unit.
cut_inside-IsCutOf :
    (p u s : ℕ) (us : List ℕ)
    → 0 < p
    → s ≤ 1
    → u < 100
    → IsUnits us
    → u + 100 * value us < 10 * 10 ^ p
    → IsCutOf (u + 100 * value us) 10 s (cut_inside (pos p) u us (pos s))
unfolding cut_inside
cut_inside-IsCutOf zero u s us hp hs hu hus h = absurd (omega arith)
cut_inside-IsCutOf (suc p) u s us hp hs hu hus h =
    let kept = shift_copy_lem (u * 6554 / 2 ^ 16) p us (omega arith) hus (omega arith) in
    rw (not_empty p) (record {
      rem = u % 10;
      rem_lt = omega arith;
      split = omega (arith, kept.0);
      units = kept.1;
      residue = rw (digit u hu) (resmap-IsResidue (u % 10) s (omega arith) hs);
    })
  where
    digit : (u : ℕ) → u < 100 → u - u * 6554 / 2 ^ 16 * 10 ≡ u % 10
    digit u h = omega arith

-- The first discarded digit is the upper one of its unit.
cut_boundary-IsCutOf :
    (p u s : ℕ) (us : List ℕ)
    → 0 < p
    → s ≤ 1
    → u < 100
    → IsUnits us
    → value us < 10 ^ p
    → IsCutOf (u + 100 * value us) 100 s (cut_boundary (pos p) u us (pos s))
unfolding cut_boundary
cut_boundary-IsCutOf zero u s us hp hs hu hus h = absurd (omega arith)
cut_boundary-IsCutOf (suc p) u s us hp hs hu hus h =
    let kept = copy_units_lem (suc p) us hus h in
    rw (not_empty p) (record {
      rem = u;
      rem_lt = hu;
      split = omega (arith, kept.0);
      units = kept.1;
      residue = ground arith;
    })

-- A whole unit of discarded digits below.
next-IsResidue :
    (u s r h : ℕ) (residue : ℤ)
    → s ≤ 1
    → u < 100
    → IsResidue (2 * r + (if u == 0 then s else 1)) (2 * h) residue
    → IsResidue (2 * (u + 100 * r) + s) (100 * (2 * h)) residue
next-IsResidue u s r h residue hs hu x = record {
  exact = λ e. ground (arith, x.exact);
  below = λ a b. ground (arith, x.below);
  half = λ a b. ground (arith, x.half);
  above = λ a. ground (arith, x.above);
}

-- One more whole unit below a cut.
next-IsCutOf :
    (u s s' v d : ℕ) (cut : Cut)
    → s ≤ 1
    → u < 100
    → s' ≡ (if u == 0 then s else 1)
    → IsCutOf v (10 ^ suc d) s' cut
    → IsCutOf (u + 100 * v) (10 ^ suc (suc (suc d))) s cut
next-IsCutOf u s s' v d cut hs hu e c =
    let even : 10 ^ suc d ≡ 2 * (5 * 10 ^ d) = omega (arith, pow-suc 10 d) in
    let power : 10 ^ suc (suc (suc d)) ≡ 100 * (2 * (5 * 10 ^ d)) =
      omega (arith, pow-suc 10 d, pow-suc 10 (suc d), pow-suc 10 (suc (suc d))) in
    record {
      rem = u + 100 * c.rem;
      rem_lt = omega (arith, c.rem_lt);
      split = omega (
        arith,
        c.split,
        ap (λ (t : ℕ). value cut.lsu * t) power,
        ap (λ (t : ℕ). value cut.lsu * t) even,
      );
      units = c.units;
      residue = rw power (
          next-IsResidue u s c.rem (5 * 10 ^ d) cut.residue hs hu (
            subst (λ (t : ℕ). IsResidue (2 * c.rem + t) (2 * (5 * 10 ^ d)) cut.residue) e
              (subst (λ (t : ℕ). IsResidue (2 * c.rem + s') t cut.residue) even c.residue)));
    }

-- Cutting `d` digits off keeps the quotient by 10 ^ d, and the residue describes the remainder.
pub cut_coeff-IsCutOf :
    (p d s : ℕ) (us : List ℕ)
    → 0 < p
    → s ≤ 1
    → IsUnits us
    → value us < 10 ^ suc d * 10 ^ p
    → IsCutOf (value us) (10 ^ suc d) s (cut_coeff (pos p) (suc d) us (pos s))
unfolding cut_coeff
cut_coeff-IsCutOf p d s [] hp hs hu h = record {
  rem = 0;
  rem_lt = omega (arith, one-le-pow (suc d) 10 (omega arith));
  split = omega arith;
  units = omega arith;
  residue = ground (arith, one-le-pow d 10 (omega arith), pow-suc 10 d);
}
cut_coeff-IsCutOf p zero s (u ∷ us) hp hs hu h = cut_inside-IsCutOf p u s us hp hs hu.0 hu.1 h
cut_coeff-IsCutOf p (suc zero) s (u ∷ us) hp hs hu h =
    cut_boundary-IsCutOf p u s us hp hs hu.0 hu.1 (omega (arith, h))
cut_coeff-IsCutOf p (suc (suc d)) s (u ∷ us) hp hs hu h = elim (Bool-cases (u == 0)) [
  | inl z ↦ rw z (
      next-IsCutOf u s s (value us) d _ hs hu.0 (rw z)
        (cut_coeff-IsCutOf p d s us hp hs hu.1 (within d h)))
  | inr nz ↦ rw nz (
      next-IsCutOf u s 1 (value us) d _ hs hu.0 (rw nz)
        (cut_coeff-IsCutOf p d 1 us hp (omega arith) hu.1 (within d h)))
]
  where
    within :
        (d : ℕ)
        → u + 100 * value us < 10 ^ suc (suc (suc d)) * 10 ^ p
        → value us < 10 ^ suc d * 10 ^ p
    within d k = omega (
      arith,
      k,
      ap (λ (t : ℕ). t * 10 ^ p) (pow-suc 10 (suc d)),
      ap (λ (t : ℕ). t * 10 ^ p) (pow-suc 10 (suc (suc d))),
    )

-- The cut coefficient has the units that its digits need.
pub length-copy_units :
    (count : ℕ) (us : List ℕ)
    → (count + 1) / 2 ≤ length us
    → length (copy_units count us) ≡ (count + 1) / 2
unfolding copy_units
length-copy_units zero us e = omega arith
length-copy_units (suc count) [] e = absurd (omega arith)
length-copy_units (suc zero) (u ∷ us) e = omega arith
length-copy_units (suc (suc count)) (u ∷ us) e =
    omega (arith, length-copy_units count us (omega arith))

length-shift_copy :
    (quot count : ℕ) (us : List ℕ)
    → suc count / 2 ≤ length us
    → length (shift_copy quot (suc count) us) ≡ suc (suc count) / 2
unfolding shift_copy
length-shift_copy quot zero us e = omega arith
length-shift_copy quot (suc count) [] e = absurd (omega arith)
length-shift_copy quot (suc zero) (u ∷ us) e = omega arith
length-shift_copy quot (suc (suc count)) (u ∷ us) e =
    omega (arith, length-shift_copy (quot10 u 1) count us (omega arith))

pub length-cut_coeff :
    (p d : ℕ) (us : List ℕ) (r : ℤ)
    → (suc p + suc d + 1) / 2 ≤ length us
    → length (cut_coeff (pos (suc p)) (suc d) us r).lsu ≡ suc (suc p) / 2
unfolding cut_coeff cut_inside cut_boundary
length-cut_coeff p d [] r e = absurd (omega arith)
length-cut_coeff p zero (u ∷ us) r e = rw (not_empty p) (length-shift_copy _ p us (omega arith))
length-cut_coeff p (suc zero) (u ∷ us) r e =
    rw (not_empty p) (omega (arith, length-copy_units (suc p) us (omega arith)))
length-cut_coeff p (suc (suc d)) (u ∷ us) r e =
    length-cut_coeff p d us (if u == 0 then r else pos 1) (omega arith)

pub digits-cut_coeff :
    (p d : ℕ) (us : List ℕ) (r : ℤ)
    → (suc p + suc d + 1) / 2 ≤ length us
    → (cut_coeff (pos (suc p)) (suc d) us r).digits ≡ suc p
unfolding cut_coeff cut_inside cut_boundary
digits-cut_coeff p d [] r e = absurd (omega arith)
digits-cut_coeff p zero (u ∷ us) r e = rw (not_empty p)
digits-cut_coeff p (suc zero) (u ∷ us) r e = rw (not_empty p)
digits-cut_coeff p (suc (suc d)) (u ∷ us) r e =
    digits-cut_coeff p d us (if u == 0 then r else pos 1) (omega arith)

-- The units of `count` digits, where there are no others.
pub copy_units_all :
    (count : ℕ) (us : List ℕ) → (count + 1) / 2 ≡ length us → copy_units count us ≡ us
unfolding copy_units
copy_units_all zero [] e = refl
copy_units_all zero (u ∷ us) e = absurd (omega arith)
copy_units_all (suc count) [] e = absurd (omega arith)
copy_units_all (suc zero) (u ∷ []) e = refl
copy_units_all (suc zero) (u ∷ v ∷ us) e = absurd (omega arith)
copy_units_all (suc (suc count)) (u ∷ us) e =
    ap (λ t. u ∷ t) (copy_units_all count us (omega arith))
