-- ===== src/Round/Correct.antt =====
-- decCopyFit and then decApplyRound: a coefficient that is too long is rounded correctly.
use cpp_decimal.Base.{ℕ, zero, suc, ◌+◌, ◌*◌, ◌/◌, ◌%◌, ◌^◌, ◌<◌, ◌≡◌, arith, ap}
use cpp_decimal.Base.{Bool, length, if◌then◌else◌, one-le-pow, pow-suc}
use cpp_decimal.Base.Int.{pos, ◌+ℤ◌, ◌≤ℤ◌}
use cpp_decimal.Context.{DecContext, Rounding}
use cpp_decimal.Number.{DecNumber, is_negative, IsCoefficient}
use cpp_decimal.Round.Apply.{apply_round}
use cpp_decimal.Round.Apply.Laws.{apply_round_lem}
use cpp_decimal.Round.Coeff.{copy_fit}
use cpp_decimal.Round.Coeff.Partial.{copy_fit_cut}
use cpp_decimal.Round.Coeff.Laws.{cut_coeff-IsCutOf, length-cut_coeff, digits-cut_coeff}
use cpp_decimal.Round.Spec.{rounds_up, round_quotient, IsScaled}
use cpp_decimal.Units.{value, d2u-eq}

pub ten-add : (m n : ℕ) → 10 ^ (m + n) ≡ 10 ^ m * 10 ^ n
ten-add zero n = rw (shift_zero n) (omega arith)
  where
    shift_zero : (n : ℕ) → zero + n ≡ n
    shift_zero n = omega arith
ten-add (suc m) n =
    rw (shift m n)
      (omega (arith, pow-suc 10 (m + n), ten-add m n, ap (λ (t : ℕ). t * 10 ^ n) (pow-suc 10 m)))
  where
    shift : (m n : ℕ) → suc m + n ≡ suc (m + n)
    shift m n = omega arith

-- The quotient and the remainder are those of a division.
pub division : (n q p r : ℕ) → r < p → n ≡ q * p + r → (n / p ≡ q) × (n % p ≡ r)
division n q p r h e = (grind arith, grind arith)

pub quotient_lt : (q p t r : ℕ) → q * p + r < p * t → q < t
quotient_lt q p t r h = grind arith

pub round_quotient-split :
    (mode : Rounding) (negative : Bool) (n q r p : ℕ)
    → n / p ≡ q
    → n % p ≡ r
    → round_quotient mode negative n p
      ≡ q + (if rounds_up mode negative q (2 * r + 0) p then 1 else 0)
unfolding round_quotient
round_quotient-split mode negative n q r p e f = rw (e, f, plus_zero (2 * r))
  where
    plus_zero : (t : ℕ) → t + 0 ≡ t
    plus_zero t = omega arith

-- decCopyFit and then decApplyRound, for a coefficient of `suc p` + `suc d` digits and a precision of
-- `suc p`: unless the exponent has no room for a carry, the result stands for the coefficient divided
-- by 10 ^ `suc d` and rounded by the context's mode, in `suc p` digits, with the source's bits.
pub copy_fit-apply_round :
    (dest src : DecNumber) (set : DecContext) (status p d : ℕ)
    → set.digits ≡ pos (suc p)
    → src.digits ≡ suc p + suc d
    → IsCoefficient src.digits src.lsu
    → src.exponent +ℤ pos (suc d) +ℤ pos 1 +ℤ pos (suc p) ≤ℤ set.emax +ℤ pos 1
    → let fit = copy_fit dest src set (pos 0) status in
      IsScaled
        (round_quotient set.round (is_negative src) (value src.lsu) (10 ^ suc d))
        (suc p)
        (src.exponent +ℤ pos (suc d))
        src.bits
        (apply_round fit.number set fit.residue fit.status).number
copy_fit-apply_round dest src set status p d e f coeff room =
    let fits : value src.lsu < 10 ^ suc d * 10 ^ suc p =
      omega (arith, coeff.fits, ap (λ (t : ℕ). 10 ^ t) f, ten-add (suc p) (suc d)) in
    let long : length src.lsu ≡ (suc p + suc d + 1) / 2 =
      omega (arith, coeff.same_length, d2u-eq src.digits) in
    let cut = cut_coeff-IsCutOf (suc p) d 0 src.lsu (omega arith) (omega arith) coeff.units fits in
    let parts = division (value src.lsu) _ (10 ^ suc d) cut.rem cut.rem_lt cut.split in
    let total =
      round_quotient-split set.round (is_negative src) (value src.lsu) _ cut.rem (10 ^ suc d)
        parts.0 parts.1 in
    rw (copy_fit_cut dest src set status p d e f, total)
      (apply_round_lem _ set _ _ p (2 * cut.rem + 0) (10 ^ suc d)
        (digits-cut_coeff p d src.lsu (pos 0) (omega (arith, long))) cut.units
        (omega (arith, length-cut_coeff p d src.lsu (pos 0) (omega (arith, long))))
        (quotient_lt _ (10 ^ suc d) (10 ^ suc p) cut.rem (omega (arith, fits, cut.split))) room
        (one-le-pow (suc d) 10 (omega arith)) cut.residue)
