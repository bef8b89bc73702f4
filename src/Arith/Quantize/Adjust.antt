-- ===== src/Arith/Quantize/Adjust.antt =====
-- decQuantizeOp on a number that is not 0: digits are rounded off, or zeros are added.
use cpp_decimal.Base.{
  ℕ, zero, suc, ◌+◌, ◌*◌, ◌^◌, ◌≤◌, ◌<◌, ◌≡◌, refl, arith, ap, sym, ◌∙◌, inr, pow-suc,
}
use cpp_decimal.Base.{Bool, true, false, ◌&&◌, length}
use cpp_decimal.Base.Int.{ℤ, pos, ◌+ℤ◌, ◌-ℤ◌, ◌≤ℤ◌, ltb_ℤ, eqb_ℤ}
use cpp_decimal.Arith.Quantize.{Adjusted, drop_sign, put_back, round_off}
use cpp_decimal.Context.{DecContext}
use cpp_decimal.Number.{DecNumber, IsCoefficient, is_negative, is_zero}
use cpp_decimal.Number.Digits.Laws.{IsDigits}
use cpp_decimal.Round.Correct.{copy_fit-apply_round}
use cpp_decimal.Round.Finalize.{lengthen}
use cpp_decimal.Round.Overflow.{Settled}
use cpp_decimal.Round.Spec.{IsScaled, round_quotient}
use cpp_decimal.Units.{value, d2u, d2u-eq}
use cpp_decimal.Units.Shift.Laws.{shift_to_most_lem}
use native.Mathlib.Nat.{pow-le-pow_right}
use native.Mathlib.Decide.{dec_lt}

-- The number stands for `n` * 10 ^ `e`, within `q` digits.
pub record IsAdjusted (n q : ℕ) (e : ℤ) (b : ℕ) (a : Adjusted) : Type 0 where
  pub total : value a.number.lsu ≡ n
  pub exponent : a.number.exponent ≡ e
  pub bits : a.number.bits ≡ b
  pub short : a.number.digits ≤ q
  pub some_digit : 0 < a.number.digits
  pub kept : a.failed ≡ false
  pub digits : IsDigits n a.number.digits

-- A count of digits, from the powers of ten around the number.
digits_of : (n d k : ℕ) → d ≡ suc k → 10 ^ k ≤ n → n < 10 ^ suc k → IsDigits n d
digits_of n d k e low high = rw e (record {
  some_digit = omega arith;
  fits = high;
  leading = inr (omega (arith, low, pow-suc 10 k));
})

keep_sign : (set : DecContext) (dn : DecNumber) → set.extended ≡ true → drop_sign set dn ≡ dn
unfolding drop_sign
keep_sign set dn e = simp (e, never (is_zero dn)) refl
  where
    never : (b : Bool) → b && false ≡ false
    never b = ground arith

-- A power of ten below another.
pub digits_below : (p q n : ℕ) → 10 ^ p ≤ n → n < 10 ^ q → p < q
digits_below p q n h k = elim (dec_lt p q) [
  | yes y ↦ y
  | no z ↦
      let more : 10 ^ q ≤ 10 ^ p = pow-le-pow_right {n = 10} (omega arith) (omega (arith, z)) in
      absurd (omega (arith, h, k, more))
]

-- A carry: the zero that was left out comes back.
put_back_carry :
    (set : DecContext) (reqexp : ℤ) (r : Settled) (p n q b : ℕ)
    → IsScaled n (suc p) reqexp b r.number
    → r.number.exponent ≡ reqexp +ℤ pos 1
    → value r.number.lsu * 10 ≡ n
    → length r.number.lsu ≡ d2u r.number.digits
    → set.extended ≡ true
    → set.digits ≡ pos q
    → suc p < q
    → 10 ^ suc p ≤ n
    → IsAdjusted n q reqexp b (put_back set reqexp r)
unfolding put_back lengthen
put_back_carry set reqexp r p n q b s e t l ext prec len low =
    let m =
      shift_to_most_lem r.number.lsu r.number.digits 1 s.units l (omega (arith, s.same_digits))
        (rw (sym s.same_digits) at s.fits) in
    rw
      (
        up r.number.exponent reqexp e,
        room r.number.digits set.digits p q s.same_digits prec len,
        keep_sign set _ ext,
      )
      (record {
        total = omega (arith, m.total, t);
        exponent = back r.number.exponent reqexp e;
        bits = s.bits;
        short = omega (arith, m.count, s.same_digits, len);
        some_digit = omega (arith, m.count);
        kept = refl;
        digits =
            digits_of n _ (suc p) (omega (arith, m.count, s.same_digits)) low
              (omega (arith, t, s.fits, pow-suc 10 (suc p)));
      })
  where
    up : (x y : ℤ) → x ≡ y +ℤ pos 1 → ltb_ℤ y x ≡ true
    up x y e = ground (arith, e)

    back : (x y : ℤ) → x ≡ y +ℤ pos 1 → x -ℤ pos 1 ≡ y
    back x y e = ground (arith, e)

    room : (d : ℕ) (g : ℤ) (p q : ℕ) → d ≡ suc p → g ≡ pos q → suc p < q → eqb_ℤ (pos d) g ≡ false
    room d g p q e f h = rw (e, f) (ground (arith, h))

-- No carry.
put_back_same :
    (set : DecContext) (reqexp : ℤ) (r : Settled) (p n q b : ℕ)
    → IsScaled n (suc p) reqexp b r.number
    → r.number.exponent ≡ reqexp
    → value r.number.lsu ≡ n
    → set.extended ≡ true
    → suc p ≤ q
    → 10 ^ p ≤ n
    → IsAdjusted n q reqexp b (put_back set reqexp r)
unfolding put_back
put_back_same set reqexp r p n q b s e t ext len low =
    rw (still r.number.exponent reqexp e, keep_sign set r.number ext)
      (record {
        total = t;
        exponent = e;
        bits = s.bits;
        short = omega (arith, s.same_digits, len);
        some_digit = omega (arith, s.same_digits);
        kept = refl;
        digits = digits_of n _ p s.same_digits low (omega (arith, t, s.fits));
      })
  where
    still : (x y : ℤ) → x ≡ y → ltb_ℤ y x ≡ false
    still x y e = ground (arith, e)

put_back-IsAdjusted :
    (set : DecContext) (reqexp : ℤ) (r : Settled) (p n q b : ℕ)
    → IsScaled n (suc p) reqexp b r.number
    → set.extended ≡ true
    → set.digits ≡ pos q
    → n < 10 ^ q
    → suc p ≤ q
    → 10 ^ p ≤ n
    → IsAdjusted n q reqexp b (put_back set reqexp r)
put_back-IsAdjusted set reqexp r p n q b s ext prec small len low = by_shift s.shift refl
  where
    by_shift : (k : ℕ) → s.shift ≡ k → IsAdjusted n q reqexp b (put_back set reqexp r)
    by_shift zero e =
        put_back_same set reqexp r p n q b s (s.exponent ∙ same reqexp s.shift e)
          (omega (arith, rw e at s.total)) ext len low
      where
        same : (x : ℤ) (k : ℕ) → k ≡ 0 → x +ℤ pos k ≡ x
        same x k e = rw e (ground arith)
    by_shift (suc zero) e =
        put_back_carry set reqexp r p n q b s (s.exponent ∙ ap (λ k. reqexp +ℤ pos k) e)
          (omega (arith, rw e at s.total))
          (omega (arith, (s.carried e).1, s.same_digits, d2u-eq r.number.digits)) ext prec
          (digits_below (suc p) q n (s.carried e).0 small) ((s.carried e).0)
    by_shift (suc (suc k)) e = absurd (omega (arith, s.short_shift, e))

pub round_off-IsAdjusted :
    (res lhs : DecNumber) (set : DecContext) (reqexp : ℤ) (status p d q : ℕ)
    → let n = round_quotient set.round (is_negative lhs) (value lhs.lsu) (10 ^ suc d) in
      set.extended ≡ true
      → set.digits ≡ pos q
      → lhs.digits ≡ suc p + suc d
      → IsCoefficient lhs.digits lhs.lsu
      → reqexp ≡ lhs.exponent +ℤ pos (suc d)
      → n < 10 ^ q
      → suc p ≤ q
      → 10 ^ p ≤ n
      → reqexp +ℤ pos 1 +ℤ pos (suc p) ≤ℤ set.emax +ℤ pos 1
      → IsAdjusted n q reqexp lhs.bits (round_off res lhs set reqexp (pos (suc d)) status)
unfolding round_off
round_off-IsAdjusted res lhs set reqexp status p d q ext prec digits c e small len low room =
    let workset = record set { digits = pos lhs.digits -ℤ pos (suc d) } in
    let s =
      copy_fit-apply_round res lhs workset status p d (kept lhs.digits p d digits) digits c
        (rw e at room) in
    put_back-IsAdjusted set reqexp _ p _ q lhs.bits (rw e s) ext prec small len low
  where
    kept : (n p d : ℕ) → n ≡ suc p + suc d → pos n -ℤ pos (suc d) ≡ pos (suc p)
    kept n p d e = rw e (ground arith)
