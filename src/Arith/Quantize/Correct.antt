-- ===== src/Arith/Quantize/Correct.antt =====
-- decQuantizeOp for quantize: the number at the exponent that is asked for.
use cpp_decimal.Base.{ℕ, zero, suc, ◌+◌, ◌-◌, ◌*◌, ◌^◌, ◌≤◌, ◌<◌, ◌≡◌, arith}
use cpp_decimal.Base.{true, false}
use cpp_decimal.Base.Int.{ℤ, pos, negsuc, pos_part, neg_part, ◌+ℤ◌, ◌-ℤ◌, ◌≤ℤ◌, ltb_ℤ, wrap_int}
use cpp_decimal.Arith.Quantize.{adjust_exponent}
use cpp_decimal.Arith.Quantize.Adjust.{IsAdjusted, digits_below, round_off-IsAdjusted}
use cpp_decimal.Context.{DecContext, Rounding}
use cpp_decimal.Number.{DecNumber, IsCoefficient, is_negative, is_zero}
use cpp_decimal.Round.Spec.{round_quotient}
use cpp_decimal.Units.{value}
use cpp_decimal.Arith.Quantize.Pad.{
  digits_kept, digits_within, pad_none, pad_out-IsAdjusted, round_quotient-le, round_quotient-one,
}

-- The coefficient at the exponent `e`, rounded to an integer.
abbrev pub quantized : Rounding → DecNumber → ℤ → ℕ
quantized mode dn e =
    round_quotient mode (is_negative dn) (value dn.lsu * 10 ^ neg_part (e -ℤ dn.exponent))
      (10 ^ pos_part (e -ℤ dn.exponent))

IsAdjusted-none :
    (res lhs : DecNumber) (set : DecContext) (reqexp : ℤ) (status q : ℕ)
    → set.digits ≡ pos q
    → IsCoefficient lhs.digits lhs.lsu
    → is_zero lhs ≡ false
    → reqexp -ℤ lhs.exponent ≡ pos 0
    → lhs.digits ≤ q
    → q ≤ 999999999
    → IsAdjusted (value lhs.lsu) q reqexp lhs.bits (adjust_exponent res lhs set reqexp status)
unfolding adjust_exponent
IsAdjusted-none res lhs set reqexp status q prec c nz e short narrow =
    rw (nz, e, guard lhs.digits set.digits q prec short narrow, same reqexp lhs.exponent e)
      (pad_none lhs status q c short)
  where
    guard :
        (d : ℕ) (g : ℤ) (q : ℕ)
        → g ≡ pos q
        → d ≤ q
        → q ≤ 999999999
        → ltb_ℤ g (wrap_int (pos d -ℤ pos 0)) ≡ false
    guard d g q e h k = rw e (ground (arith, h, k))

    same : (x y : ℤ) → x -ℤ y ≡ pos 0 → x ≡ y
    same x y e = ground (arith, e)

IsAdjusted-up :
    (res lhs : DecNumber) (set : DecContext) (reqexp : ℤ) (status q k : ℕ)
    → set.digits ≡ pos q
    → IsCoefficient lhs.digits lhs.lsu
    → is_zero lhs ≡ false
    → reqexp -ℤ lhs.exponent ≡ negsuc k
    → lhs.digits + suc k ≤ q
    → q ≤ 999999999
    → 0 < value lhs.lsu
    → IsAdjusted
        (value lhs.lsu * 10 ^ suc k)
        q
        reqexp
        lhs.bits
        (adjust_exponent res lhs set reqexp status)
unfolding adjust_exponent
IsAdjusted-up res lhs set reqexp status q k prec c nz e short narrow full =
    rw
      (
        nz,
        e,
        held lhs.digits k q short narrow,
        guard lhs.digits set.digits q k prec short narrow,
        down k,
        lower reqexp lhs.exponent k e,
      )
      (pad_out-IsAdjusted lhs k status q c short full)
  where
    held : (d k q : ℕ) → d + suc k ≤ q → q ≤ 999999999 → wrap_int (negsuc k) ≡ negsuc k
    held d k q h n = ground (arith, h, n)

    guard :
        (d : ℕ) (g : ℤ) (q k : ℕ)
        → g ≡ pos q
        → d + suc k ≤ q
        → q ≤ 999999999
        → ltb_ℤ g (wrap_int (pos d -ℤ negsuc k)) ≡ false
    guard d g q k e h n = rw e (ground (arith, h, n))

    down : (k : ℕ) → ltb_ℤ (pos 0) (negsuc k) ≡ false
    down k = ground arith

    lower : (x y : ℤ) (k : ℕ) → x -ℤ y ≡ negsuc k → x ≡ y +ℤ negsuc k
    lower x y k e = ground (arith, e)

less_digits : (x m : ℤ) (p q : ℕ) → p ≤ q → x ≤ℤ m -ℤ pos q → x ≤ℤ m -ℤ pos p
less_digits x m p q h k = ground (arith, h, k)

carry_one : (x m : ℤ) (p : ℕ) → x ≤ℤ m -ℤ pos p → x +ℤ pos 1 +ℤ pos p ≤ℤ m +ℤ pos 1
carry_one x m p k = ground (arith, k)

carry_room :
    (x m : ℤ) (p q : ℕ) → suc p ≤ q → x ≤ℤ m -ℤ pos q → x +ℤ pos 1 +ℤ pos (suc p) ≤ℤ m +ℤ pos 1
carry_room x m p q h k = carry_one x m (suc p) (less_digits x m (suc p) q h k)

IsAdjusted-down :
    (res lhs : DecNumber) (set : DecContext) (reqexp : ℤ) (status q p d : ℕ)
    → let n = round_quotient set.round (is_negative lhs) (value lhs.lsu) (10 ^ suc d) in
      set.extended ≡ true
      → set.digits ≡ pos q
      → IsCoefficient lhs.digits lhs.lsu
      → is_zero lhs ≡ false
      → lhs.digits ≡ suc p + suc d
      → reqexp -ℤ lhs.exponent ≡ pos (suc d)
      → n < 10 ^ q
      → suc p ≤ q
      → 10 ^ p ≤ n
      → q ≤ 999999999
      → lhs.digits ≤ 999999999
      → reqexp ≤ℤ set.emax -ℤ set.digits
      → IsAdjusted n q reqexp lhs.bits (adjust_exponent res lhs set reqexp status)
unfolding adjust_exponent
IsAdjusted-down res lhs set reqexp status q p d ext prec c nz digits e small len low narrow most
      below =
    rw
      (
        nz,
        e,
        held lhs.digits p d digits most,
        guard lhs.digits set.digits q p d digits prec len narrow,
        rising d,
      )
      (round_off-IsAdjusted res lhs set reqexp status p d q ext prec digits c
        (higher reqexp lhs.exponent d e) small len low
        (carry_room reqexp set.emax p q len (rw prec at below)))
  where
    guard :
        (n : ℕ) (g : ℤ) (q p d : ℕ)
        → n ≡ suc p + suc d
        → g ≡ pos q
        → suc p ≤ q
        → q ≤ 999999999
        → ltb_ℤ g (wrap_int (pos n -ℤ pos (suc d))) ≡ false
    guard n g q p d e f h k = rw (e, f) (ground (arith, h, k))

    held : (n p d : ℕ) → n ≡ suc p + suc d → n ≤ 999999999 → wrap_int (pos (suc d)) ≡ pos (suc d)
    held n p d e h = ground (arith, e, h)

    rising : (d : ℕ) → ltb_ℤ (pos 0) (pos (suc d)) ≡ true
    rising d = ground arith

    higher : (x y : ℤ) (d : ℕ) → x -ℤ y ≡ pos (suc d) → x ≡ y +ℤ pos (suc d)
    higher x y d e = ground (arith, e)

-- Any adjustment of a number that is not 0, of which a digit is kept.
pub adjust_exponent-nonzero :
    (res lhs : DecNumber) (set : DecContext) (reqexp x : ℤ) (status q : ℕ)
    → let n =
        round_quotient set.round
          (is_negative lhs)
          (value lhs.lsu * 10 ^ neg_part x)
          (10 ^ pos_part x) in
      set.extended ≡ true
      → set.digits ≡ pos q
      → IsCoefficient lhs.digits lhs.lsu
      → is_zero lhs ≡ false
      → 0 < value lhs.lsu
      → reqexp -ℤ lhs.exponent ≡ x
      → pos_part x < lhs.digits
      → n < 10 ^ q
      → q ≤ 999999999
      → lhs.digits ≤ 999999999
      → reqexp ≤ℤ set.emax -ℤ set.digits
      → IsAdjusted n q reqexp lhs.bits (adjust_exponent res lhs set reqexp status)
adjust_exponent-nonzero res lhs set reqexp (pos zero) status q ext prec c nz full e left small
      narrow most below =
    let one = round_quotient-one set.round (is_negative lhs) (value lhs.lsu * 10 ^ 0) in
    let same = times_one (value lhs.lsu) in
    rw (one, same)
      (IsAdjusted-none res lhs set reqexp status q prec c nz e
        (plus_none (
          digits_within lhs.digits (value lhs.lsu) 0 q c.leading c.some_digit full
            (rw one at small)))
        narrow)
  where
    times_one : (v : ℕ) → v * 10 ^ 0 ≡ v
    times_one v = omega arith

    plus_none : {d q : ℕ} → d + 0 ≤ q → d ≤ q
    plus_none h = omega (arith, h)
adjust_exponent-nonzero res lhs set reqexp (negsuc k) status q ext prec c nz full e left small
      narrow most below =
    let one = round_quotient-one set.round (is_negative lhs) (value lhs.lsu * 10 ^ suc k) in
    rw one (
      IsAdjusted-up res lhs set reqexp status q k prec c nz e
        (digits_within lhs.digits (value lhs.lsu) (suc k) q c.leading c.some_digit full
          (rw one at small))
        narrow full)
adjust_exponent-nonzero res lhs set reqexp (pos (suc d)) status q ext prec c nz full e left small
      narrow most below =
    let same = times_one (value lhs.lsu) in
    let parts = kept lhs.digits d left in
    let n = rw same at small in
    let low =
      digits_kept (lhs.digits - suc (suc d)) d (value lhs.lsu) _ (rw parts at c.leading)
        (round_quotient-le set.round (is_negative lhs) (value lhs.lsu) (10 ^ suc d)) in
    rw same (
      IsAdjusted-down res lhs set reqexp status q (lhs.digits - suc (suc d)) d ext prec c nz parts e
        n (omega (arith, digits_below (lhs.digits - suc (suc d)) q _ low n)) low narrow most below)
  where
    times_one : (v : ℕ) → v * 10 ^ 0 ≡ v
    times_one v = omega arith

    kept : (n d : ℕ) → suc d < n → n ≡ suc (n - suc (suc d)) + suc d
    kept n d h = omega arith
