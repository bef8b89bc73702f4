-- ===== src/Round/Settle.antt =====
-- A coefficient that is cut to the precision, and then finished, is rounded once; one that fits stays.
use cpp_decimal.Base.{
  ℕ, suc, ◌+◌, ◌*◌, ◌/◌, ◌^◌, ◌≤◌, ◌<◌, ◌≡◌, ◌≢◌, ◌⊎◌, inl, inr, refl, arith, ap, sym, ◌∙◌,
}
use cpp_decimal.Base.{List, true, has, if◌then◌else◌, [], length, pow-suc, one-le-pow}
use cpp_decimal.Base.Int.{ℤ, pos, ◌+ℤ◌, ◌-ℤ◌, ◌≤ℤ◌}
use cpp_decimal.Context.{DecContext, Rounding}
use cpp_decimal.Number.{DecNumber, IsCoefficient, is_negative, neg_bit}
use cpp_decimal.Number.Digits.{get_digits}
use native.Mathlib.Nat.{pow-le-pow_right}
use native.Mathlib.Decide.{dec_lt}
use cpp_decimal.Number.Digits.Laws.{IsDigits, get_digits_lem}
use cpp_decimal.Number.Digits.Recount.{digits_within, one_count, IsCounted, recounted_units}
use cpp_decimal.Round.Apply.Laws.{apply_round_lem}
use cpp_decimal.Round.Coeff.{Pending, copy_units, set_coeff}
use cpp_decimal.Round.Coeff.Laws.{IsResidue, cut_coeff-IsCutOf, digits-cut_coeff, length-cut_coeff}
use cpp_decimal.Round.Coeff.Partial.{set_coeff_cut, set_coeff_short}
use cpp_decimal.Round.Correct.{division, quotient_lt, round_quotient-split, ten-add}
use cpp_decimal.Round.Finalize.{finish}
use cpp_decimal.Round.Finalize.Laws.{finish_rounds, finish_keeps}
use cpp_decimal.Round.Overflow.{Settled}
use cpp_decimal.Round.Spec.{IsScaled, round_quotient, rounds_up}
use cpp_decimal.Units.{value, IsUnits, d2u-eq}

-- The sum `n` cut to `suc p` digits, `suc d` of them gone.
pub record IsCutSum (n p d : ℕ) (b : ℕ) (e : ℤ) (fit : Pending) : Type 0 where
  pub coefficient : IsCoefficient fit.number.digits fit.number.lsu
  pub digits : fit.number.digits ≡ suc p
  pub bits : fit.number.bits ≡ b
  pub exponent : fit.number.exponent ≡ e +ℤ pos (suc d)
  pub rem : ℕ
  pub rem_lt : rem < 10 ^ suc d
  pub split : n ≡ value fit.number.lsu * 10 ^ suc d + rem
  pub residue : IsResidue (2 * rem + 0) (10 ^ suc d) fit.residue

pub quotient_le : (n q p t r : ℕ) → n ≡ q * p + r → r < p → p * t ≤ n → t ≤ q
quotient_le n q p t r e h k = grind arith

pub set_coeff-IsCutSum :
    (dn : DecNumber) (set : DecContext) (lsu : List ℕ) (status p d : ℕ)
    → set.digits ≡ pos (suc p)
    → IsUnits lsu
    → lsu ≢ []
    → IsDigits (value lsu) (suc p + suc d)
    → IsCutSum
        (value lsu)
        p
        d
        dn.bits
        dn.exponent
        (set_coeff dn set lsu (get_digits lsu) (pos 0) status)
set_coeff-IsCutSum dn set lsu status p d e hu ne digits =
    let counted : get_digits lsu ≡ suc p + suc d =
      one_count (value lsu) _ _ (get_digits_lem lsu hu) digits in
    let within : suc p + suc d ≤ 2 * length lsu = digits_within lsu _ ne hu digits in
    let fits : value lsu < 10 ^ suc d * 10 ^ suc p =
      omega (arith, digits.fits, ten-add (suc p) (suc d)) in
    let cut = cut_coeff-IsCutOf (suc p) d 0 lsu (omega arith) (omega arith) hu fits in
    let count = digits-cut_coeff p d lsu (pos 0) (omega (arith, within)) in
    rw (counted, set_coeff_cut dn set lsu (suc p + suc d) status p d e refl)
      (record {
        coefficient = rw count (record {
          units = cut.units;
          same_length =
              length-cut_coeff p d lsu (pos 0) (omega (arith, within))
              ∙ half p
              ∙ sym (d2u-eq (suc p));
          some_digit = omega arith;
          fits = quotient_lt _ (10 ^ suc d) (10 ^ suc p) cut.rem (omega (arith, fits, cut.split));
          leading = leads p d _ cut.rem digits.leading cut.split cut.rem_lt;
        });
        digits = count;
        bits = refl;
        exponent = refl;
        rem = cut.rem;
        rem_lt = cut.rem_lt;
        split = cut.split;
        residue = cut.residue;
      })
  where
    half : (p : ℕ) → suc (suc p) / 2 ≡ (suc p + 1) / 2
    half p = omega arith

    regroup : (a b : ℕ) → 10 * a * b ≡ 10 * (b * a)
    regroup a b = grind arith

    times_ten : (a b c : ℕ) → a ≡ 10 * b → a * c ≡ 10 * (c * b)
    times_ten a b c e = rw e (regroup b c)

    leads :
        (k j q r : ℕ)
        → (suc k + suc j ≡ 1) ⊎ (10 ^ (suc k + suc j) ≤ 10 * value lsu)
        → value lsu ≡ q * 10 ^ suc j + r
        → r < 10 ^ suc j
        → (suc k ≡ 1) ⊎ (10 ^ suc k ≤ 10 * q)
    leads k j q r (inl one) e h = absurd (omega (arith, one))
    leads k j q r (inr l) e h =
        let whole = times_ten (10 ^ suc k) (10 ^ k) (10 ^ suc j) (omega (arith, pow-suc 10 k)) in
        inr (
          omega (
            arith,
            pow-suc 10 k,
            quotient_le (value lsu) q (10 ^ suc j) (10 ^ k) r e h
                (omega (arith, l, ten-add (suc k) (suc j), whole)),
          ))

-- The exponents stay within their range.
room_pos : (y : ℤ) (p : ℕ) (m : ℤ) → y ≤ℤ m -ℤ pos (suc p) +ℤ pos 1 → y +ℤ pos (suc p) ≤ℤ m +ℤ pos 1
room_pos y p m k = ground arith

room :
    (e : ℤ) (d p : ℕ) (m g : ℤ)
    → g ≡ pos (suc p)
    → e +ℤ pos (suc d) +ℤ pos 1 ≤ℤ m -ℤ g +ℤ pos 1
    → e +ℤ pos (suc d) +ℤ pos 1 +ℤ pos (suc p) ≤ℤ m +ℤ pos 1
room e d p m g h k = room_pos (e +ℤ pos (suc d) +ℤ pos 1) p m (rw h at k)

above : (m e : ℤ) (p d : ℕ) → m ≤ℤ e → m -ℤ pos (suc p) +ℤ pos 2 ≤ℤ e +ℤ pos (suc d)
above m e p d h = ground (arith, h)

top :
    (e : ℤ) (d s : ℕ) (m : ℤ)
    → s ≤ 1
    → e +ℤ pos (suc d) +ℤ pos 1 ≤ℤ m
    → e +ℤ pos (suc d) +ℤ pos s ≤ℤ m
top e d s m h k = ground (arith, h, k)

-- The cut sum, finished: it is rounded once.
pub record IsFinished (n p d : ℕ) (mode : Rounding) (b : ℕ) (e : ℤ) (r : Settled) : Type 0 where
  pub scaled :
      IsScaled
        (round_quotient mode (has b neg_bit) n (10 ^ suc d))
        (suc p)
        (e +ℤ pos (suc d))
        b
        r.number

pub IsScaled-at :
    {n n' k b b' : ℕ} {e e' : ℤ} {dn : DecNumber}
    → n ≡ n'
    → e ≡ e'
    → b ≡ b'
    → IsScaled n k e b dn
    → IsScaled n' k e' b' dn
IsScaled-at f g h s = record {
  shift = s.shift;
  short_shift = s.short_shift;
  carried = λ one. (omega (arith, (s.carried one).0, f), (s.carried one).1);
  exponent = s.exponent ∙ ap (λ t. t +ℤ pos s.shift) g;
  total = s.total ∙ f;
  same_digits = s.same_digits;
  fits = s.fits;
  units = s.units;
  bits = s.bits ∙ h;
}

pub finish-IsFinished :
    (n p d b : ℕ) (e : ℤ) (fit : Pending) (set : DecContext)
    → set.digits ≡ pos (suc p)
    → set.extended ≡ true
    → set.emin ≤ℤ e
    → e +ℤ pos (suc d) +ℤ pos 1 ≤ℤ set.emax -ℤ set.digits +ℤ pos 1
    → IsCutSum n p d b e fit
    → IsFinished n p d set.round b e (finish true fit.number set fit.residue fit.status)
finish-IsFinished n p d b e fit set prec ext lo hi c =
    let parts = division n (value fit.number.lsu) (10 ^ suc d) c.rem c.rem_lt c.split in
    let total =
      round_quotient-split set.round (is_negative fit.number) n (value fit.number.lsu) c.rem
        (10 ^ suc d) parts.0 parts.1 in
    let target : value fit.number.lsu
          + (if rounds_up set.round (is_negative fit.number) (value fit.number.lsu) (2 * c.rem + 0)
                (10 ^ suc d)
              then 1
              else 0)
        ≡ round_quotient set.round (has b neg_bit) n (10 ^ suc d) =
      sym total ∙ ap (λ t. round_quotient set.round (has t neg_bit) n (10 ^ suc d)) c.bits in
    let r =
      apply_round_lem fit.number set fit.residue fit.status p (2 * c.rem + 0) (10 ^ suc d) c.digits
        c.coefficient.units
        (c.coefficient.same_length ∙ d2u-eq fit.number.digits ∙ ap (λ t. (t + 1) / 2) c.digits)
        (rw c.digits at c.coefficient.fits) (rw c.exponent (room e d p set.emax set.digits prec hi))
        (one-le-pow (suc d) 10 (omega arith)) c.residue in
    rw
      (finish_rounds fit.number set fit.residue fit.status ext
        (rw (c.digits, c.exponent) (above set.emin e p d lo))
        (rw (r.exponent, c.exponent) (top e d r.shift _ r.short_shift hi)))
      (record { scaled = IsScaled-at (target) c.exponent c.bits r })

-- A number below 10 ^ p has at most p digits.
pub digits_bound : (v n p : ℕ) → IsDigits v n → v < 10 ^ p → 0 < p → n ≤ p
digits_bound v n p d h hp = elim (dec_lt p n) [
  | no le ↦ omega (arith, le)
  | yes lt ↦ absurd (too_many d.leading lt)
]
  where
    too_many : (n ≡ 1) ⊎ (10 ^ n ≤ 10 * v) → p < n → ⊥
    too_many (inl e) lt = omega arith
    too_many (inr l) lt = omega (arith, pow-le-pow_right {n = 10} (omega arith) lt, pow-suc 10 p)

recount_record :
    (dn : DecNumber) (lsu : List ℕ)
    → lsu ≢ []
    → IsUnits lsu
    → IsCounted
        (value lsu)
        (record dn { digits = get_digits lsu; lsu = copy_units (get_digits lsu) lsu })
recount_record dn lsu ne hu = recounted_units (record dn { lsu = lsu }) ne hu

-- The coefficient `n`, all of it, with the bits and the exponent that are given.
pub record IsWhole (n b : ℕ) (e : ℤ) (flags : ℕ) (r : Settled) : Type 0 where
  pub total : value r.number.lsu ≡ n
  pub coefficient : IsCoefficient r.number.digits r.number.lsu
  pub bits : r.number.bits ≡ b
  pub exponent : r.number.exponent ≡ e
  pub status : r.status ≡ flags

pub room_below : (m e : ℤ) (n : ℕ) → m ≤ℤ e → 0 < n → m -ℤ pos n +ℤ pos 1 ≤ℤ e
room_below m e n h k = ground (arith, h, k)

pub settle-IsWhole :
    (dn : DecNumber) (set : DecContext) (lsu : List ℕ) (status p : ℕ)
    → set.digits ≡ pos p
    → 0 < p
    → set.extended ≡ true
    → IsUnits lsu
    → lsu ≢ []
    → value lsu < 10 ^ p
    → set.emin ≤ℤ dn.exponent
    → dn.exponent ≤ℤ set.emax -ℤ set.digits +ℤ pos 1
    → let fit = set_coeff dn set lsu (get_digits lsu) (pos 0) status in
      IsWhole
        (value lsu)
        dn.bits
        dn.exponent
        status
        (finish true fit.number set fit.residue fit.status)
settle-IsWhole dn set lsu status p e hp ext hu ne small lo hi =
    let d = get_digits_lem lsu hu in
    let n = recount_record dn lsu ne hu in
    rw
      (
        set_coeff_short dn set lsu (get_digits lsu) status p e (digits_bound _ _ p d small hp),
        finish_keeps (record dn { digits = get_digits lsu; lsu = copy_units (get_digits lsu) lsu })
            set status ext (room_below set.emin dn.exponent (get_digits lsu) lo d.some_digit) hi,
      )
      (record {
        total = n.total;
        coefficient = n.coefficient;
        bits = refl;
        exponent = refl;
        status = refl;
      })

-- A coefficient of `suc d` digits more than the precision.
pub settle-IsFinished :
    (dn : DecNumber) (set : DecContext) (lsu : List ℕ) (status p d : ℕ)
    → set.digits ≡ pos (suc p)
    → set.extended ≡ true
    → IsUnits lsu
    → lsu ≢ []
    → IsDigits (value lsu) (suc p + suc d)
    → set.emin ≤ℤ dn.exponent
    → dn.exponent +ℤ pos (suc d) +ℤ pos 1 ≤ℤ set.emax -ℤ set.digits +ℤ pos 1
    → let fit = set_coeff dn set lsu (get_digits lsu) (pos 0) status in
      IsFinished
        (value lsu)
        p
        d
        set.round
        dn.bits
        dn.exponent
        (finish true fit.number set fit.residue fit.status)
settle-IsFinished dn set lsu status p d e ext hu ne digits lo hi =
    finish-IsFinished (value lsu) p d dn.bits dn.exponent
      (set_coeff dn set lsu (get_digits lsu) (pos 0) status) set e ext lo hi
      (set_coeff-IsCutSum dn set lsu status p d e hu ne digits)
