-- ===== src/Arith/Add/Units/Exact.antt =====
-- An aligned sum that fits the precision comes out exactly.
use cpp_decimal.Base.{
  ℕ, zero, suc, ◌+◌, ◌*◌, ◌/◌, ◌^◌, ◌≤◌, ◌<◌, ◌≡◌, ◌≢◌, inl, inr, refl, arith, sym, ◌∙◌,
}
use cpp_decimal.Base.{
  Bool, true, false, has, ltb, ◌==◌, not, ◌&&◌, ◌||◌, if◌then◌else◌, List, [], ◌∷◌, length,
  Bool-cases,
}
use cpp_decimal.Base.Int.{ℤ, pos, ◌+ℤ◌, ◌-ℤ◌, ◌≤ℤ◌, ltb_ℤ, leb_ℤ}
use cpp_decimal.Arith.Add.Units.{
  add_units, fit_sum, fit_sum_subset, add_aligned, zero_difference, unit_shift, sum_buffer_units,
}
use cpp_decimal.Base.Int.{neg_ℕ, pos_part, neg_part}
use cpp_decimal.Arith.Add.Units.Sum.{signed_sum, IsExact, add_units-IsExact, plain_sum}
use cpp_decimal.Number.{neg_bit}
use cpp_decimal.Context.{DecContext, inexact}
use cpp_decimal.Number.{is_special, is_negative}
use cpp_decimal.Number.Int32.Laws.{signed}
use cpp_decimal.Number.Laws.{is_zero-eq}
use cpp_decimal.Number.{DecNumber, IsCoefficient, is_zero}
use cpp_decimal.Number.Digits.{get_digits, recount}
use cpp_decimal.Number.Digits.Laws.{get_digits_lem}
use cpp_decimal.Number.Digits.Recount.{
  digits_within, recount-IsCounted, recount-bits, recount-exponent,
}
use cpp_decimal.Round.Coeff.{Pending, set_coeff}
use cpp_decimal.Units.Shift.Spread.{pow_even}
use cpp_decimal.Round.Coeff.Laws.{copy_units_lem, length-copy_units}
use cpp_decimal.Round.Coeff.Partial.{set_coeff_short}
use cpp_decimal.Round.Finalize.{finish}
use cpp_decimal.Round.Finalize.Laws.{finish_keeps}
use cpp_decimal.Round.Overflow.{Settled}
use cpp_decimal.Round.Settle.{digits_bound}
use cpp_decimal.Units.{value, value-lt, IsUnits, d2u}

-- The coefficient of `sum`, with as many of the leading zeros as are left.
pub record IsSame (sum : DecNumber) (fit : Pending) (flags : ℕ) : Type 0 where
  pub total : value fit.number.lsu ≡ value sum.lsu
  pub units : IsUnits fit.number.lsu
  pub some_units : fit.number.lsu ≢ []
  pub bits : fit.number.bits ≡ sum.bits
  pub exponent : fit.number.exponent ≡ sum.exponent
  pub residue : fit.residue ≡ pos 0
  pub status : fit.status ≡ flags

not_empty : (us : List ℕ) → 1 ≤ length us → us ≢ []
not_empty [] h = absurd (omega arith)
not_empty (u ∷ us) h = λ e. cc e

copied :
    (sum : DecNumber) (set : DecContext) (n status p : ℕ)
    → set.digits ≡ pos p
    → n ≤ p
    → 0 < n
    → (n + 1) / 2 ≤ length sum.lsu
    → value sum.lsu < 10 ^ n
    → IsUnits sum.lsu
    → IsSame sum (set_coeff sum set sum.lsu n (pos 0) status) status
copied sum set n status p e h hn hl hv hu =
    let kept = copy_units_lem n sum.lsu hu hv in
    rw (set_coeff_short sum set sum.lsu n status p e h) (record {
      total = kept.0;
      units = kept.1;
      some_units = not_empty _ (omega (arith, length-copy_units n sum.lsu hl));
      bits = refl;
      exponent = refl;
      residue = refl;
      status = refl;
    })

fit_sum-IsSame :
    (sum : DecNumber) (set : DecContext) (status p : ℕ)
    → set.digits ≡ pos p
    → 0 < p
    → value sum.lsu < 10 ^ p
    → IsUnits sum.lsu
    → 1 ≤ length sum.lsu
    → sum.digits ≡ length sum.lsu * 2
    → IsSame sum (fit_sum sum set status) status
unfolding fit_sum
fit_sum-IsSame sum set status p e hp hv hu hl hd =
    let d = get_digits_lem sum.lsu hu in
    elim (Bool-cases (ltb_ℤ set.digits (pos sum.digits))) [
      | inl long ↦ rw long (
          copied sum set (get_digits sum.lsu) status p e (digits_bound _ _ p d hv hp) d.some_digit
            (omega (arith, digits_within sum.lsu _ (not_empty sum.lsu hl) hu d)) d.fits hu)
      | inr short ↦ rw short (
          copied sum set sum.digits status p e (within _ _ p e short) (omega arith) (omega arith)
            (rw hd
              (rw (double (length sum.lsu)) (rw (pow_even (length sum.lsu)) (value-lt sum.lsu hu))))
            hu)
    ]
  where
    within : (x : ℤ) (n p : ℕ) → x ≡ pos p → ltb_ℤ x (pos n) ≡ false → n ≤ p
    within x n p e h = ground (arith, e, h)

    double : (n : ℕ) → n * 2 ≡ 2 * n
    double n = omega arith

-- The sign of a zero difference does not change the value.
record IsResigned (s r : Settled) : Type 0 where
  total : signed r.number ≡ signed s.number
  digits : r.number.digits ≡ s.number.digits
  lsu : r.number.lsu ≡ s.number.lsu
  exponent : r.number.exponent ≡ s.number.exponent
  status : r.status ≡ s.status

zero_difference-IsResigned :
    (s : Settled) (set : DecContext) (diffsign : Bool)
    → IsCoefficient s.number.digits s.number.lsu
    → is_special s.number ≡ false
    → IsResigned s (zero_difference s set diffsign)
unfolding zero_difference
zero_difference-IsResigned s set diffsign c plain =
    elim (Bool-cases (is_zero s.number && diffsign && set.extended && not (has s.status inexact))) [
      | inl cancelled ↦ rw cancelled (record {
        total =
            unsigned _ _ _
              (value_zero (sym (is_zero-eq s.number c plain) ∙ first_of _ _ _ _ cancelled));
        digits = refl;
        lsu = refl;
        exponent = refl;
        status = refl;
      })
      | inr kept ↦
          rw kept
            (record { total = refl; digits = refl; lsu = refl; exponent = refl; status = refl })
    ]
  where
    unsigned :
        (a b : Bool) (v : ℕ)
        → v ≡ 0
        → (if a then neg_ℕ v else pos v) ≡ (if b then neg_ℕ v else pos v)
    unsigned a b v e = rw e (ground arith)

    value_zero : {v : ℕ} → (v == 0) ≡ true → v ≡ 0
    value_zero h = ground (arith, h)

    first_of : (a b c d : Bool) → a && b && c && d ≡ true → a ≡ true
    first_of true b c d h = refl
    first_of false b c d h = ground (arith, h)

-- The sum is exact: it has the value `x` at the exponent of `low`.
pub record IsExactSum (x : ℤ) (low : DecNumber) (flags : ℕ) (r : Settled) : Type 0 where
  pub total : signed r.number ≡ x
  pub coefficient : IsCoefficient r.number.digits r.number.lsu
  pub exponent : r.number.exponent ≡ low.exponent
  pub status : r.status ≡ flags

-- A sum in units that fits the precision passes through decSetCoeff and decFinish unchanged.
settle_exact :
    (sum : DecNumber) (fit : Pending) (set : DecContext) (status : ℕ) (diffsign : Bool)
    → IsSame sum fit status
    → set.extended ≡ true
    → set.emin ≤ℤ sum.exponent
    → sum.exponent ≤ℤ set.emax -ℤ set.digits +ℤ pos 1
    → is_special sum ≡ false
    → IsExactSum
        (signed sum)
        sum
        status
        (zero_difference (finish true (recount fit.number) set fit.residue fit.status) set diffsign)
settle_exact sum fit set status diffsign same ext lo hi plain =
    let n = recount-IsCounted fit.number same.some_units same.units in
    let exponent : (recount fit.number).exponent ≡ sum.exponent =
      recount-exponent fit.number ∙ same.exponent in
    let whole =
      finish_keeps (recount fit.number) set status ext
        (rw exponent (room set.emin sum.exponent _ lo n.coefficient.some_digit)) (rw exponent hi) in
    let done =
      zero_difference-IsResigned (record { number = recount fit.number; status = status }) set
        diffsign n.coefficient (rw (recount-bits fit.number, same.bits) plain) in
    rw (same.residue, same.status, whole)
      (record {
        total = done.total ∙ simp (recount-bits fit.number, same.bits, n.total, same.total);
        coefficient = rw (done.digits, done.lsu) n.coefficient;
        exponent = done.exponent ∙ exponent;
        status = done.status;
      })
  where
    room : (m e : ℤ) (n : ℕ) → m ≤ℤ e → 0 < n → m -ℤ pos n +ℤ pos 1 ≤ℤ e
    room m e n h k = ground (arith, h, k)

-- The sum, before it is cut, as a fit of itself.
whole_sum-IsSame :
    (sum : DecNumber) (status : ℕ)
    → IsUnits sum.lsu
    → 1 ≤ length sum.lsu
    → IsSame sum (record { number = sum; residue = pos 0; status = status }) status
whole_sum-IsSame sum status hu hl = record {
  total = refl;
  units = hu;
  some_units = not_empty sum.lsu hl;
  bits = refl;
  exponent = refl;
  residue = refl;
  status = refl;
}

-- The number of a sum is below 10 ^ p when the integer is.
magnitude :
    (negative : Bool) (v p : ℕ) (x : ℤ)
    → (if negative then neg_ℕ v else pos v) ≡ x
    → pos_part x + neg_part x < p
    → v < p
magnitude true zero p x e h = omega (arith, h)
magnitude true (suc v) p x e h = ground (arith, e, h)
magnitude false v p x e h = ground (arith, e, h)

-- decAddOp on aligned operands, with storage: when the exact sum fits the precision, and its exponent
-- the range, the result is that sum, with the status that it had.
pub add_aligned-IsExactSum :
    (overlap : Bool) (res lhs rhs : DecNumber) (padding : ℕ) (set : DecContext) (bits : ℕ)
    (diffsign : Bool) (status p : ℕ)
    → set.digits ≡ pos p
    → 0 < p
    → set.extended ≡ true
    → IsUnits lhs.lsu
    → IsUnits rhs.lsu
    → 1 ≤ length lhs.lsu
    → set.emin ≤ℤ lhs.exponent
    → lhs.exponent ≤ℤ set.emax -ℤ set.digits +ℤ pos 1
    → let x =
        signed_sum (has bits neg_bit) diffsign (value lhs.lsu) (value rhs.lsu * 10 ^ padding) in
      pos_part x + neg_part x < 10 ^ p
      → IsExactSum x lhs status
          (add_aligned true overlap res lhs rhs padding set bits diffsign status)
unfolding add_aligned
add_aligned-IsExactSum overlap res lhs rhs padding set bits diffsign status p e hp ext hl hr some lo
      hi small =
    let sum = add_units lhs rhs padding bits diffsign in
    let x = add_units-IsExact lhs rhs padding bits diffsign hl hr some in
    let below = magnitude (is_negative sum) (value sum.lsu) (10 ^ p) _ x.total small in
    let fitted = fit_sum-IsSame sum set status p e hp below x.units x.some_units x.digits in
    let maxdigits =
      if ltb (rhs.digits + padding) lhs.digits then lhs.digits else rhs.digits + padding in
    let buffered = leb_ℤ set.digits (pos maxdigits) || (overlap && ltb 0 (unit_shift padding)) in
    let same =
      choose sum maxdigits fitted (whole_sum-IsSame sum status x.units x.some_units) buffered in
    rw (stored buffered (ltb sum_buffer_units (d2u maxdigits + 1))) (
      restate x (
        settle_exact sum _ set status diffsign same ext (rw x.exponent lo) (rw x.exponent hi)
          (plain_sum lhs rhs padding bits diffsign)))
  where
    stored : (a b : Bool) → (a && b && not true) ≡ false
    stored a b = ground arith

    choose :
        (sum : DecNumber) (maxdigits : ℕ)
        → IsSame sum (fit_sum sum set status) status
        → IsSame sum (record { number = sum; residue = pos 0; status = status }) status
        → (b : Bool)
        → IsSame sum
            (if not b
              then record { number = sum; residue = pos 0; status = status }
              else if set.extended
              then fit_sum sum set status
              else fit_sum_subset sum maxdigits set status)
            status
    choose sum maxdigits f w true = simp ext f
    choose sum maxdigits f w false = w

    restate :
        {x : ℤ} {sum : DecNumber} {r : Settled}
        → IsExact x lhs sum
        → IsExactSum (signed sum) sum status r
        → IsExactSum x lhs status r
    restate x r = record {
      total = r.total ∙ x.total;
      coefficient = r.coefficient;
      exponent = r.exponent ∙ x.exponent;
      status = r.status;
    }
