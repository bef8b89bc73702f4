-- ===== src/Number/Trim/Bare.antt =====
-- src/decNumber.c: what decTrim promises where all trailing zeros are to go.
use cpp_decimal.Base.{
  ℕ, zero, suc, ◌+◌, ◌-◌, ◌*◌, ◌/◌, ◌%◌, ◌^◌, ◌≤◌, ◌<◌, ◌≡◌, ◌⊎◌, inl, inr, refl, arith, ap, sym,
  ◌∙◌, pow-suc, one-le-pow,
}
use cpp_decimal.Base.{
  Bool, true, false, List, [], ◌∷◌, ◌==◌, Bool-cases, not, ◌&&◌, has, bit_and-one, ==_iff,
}
use cpp_decimal.Base.Int.{ℤ, pos, ◌+ℤ◌}
use cpp_decimal.Context.{DecContext}
use cpp_decimal.Number.{DecNumber, IsCoefficient, first_unit, is_zero}
use cpp_decimal.Number.Compare.Laws.{IsFinite}
use cpp_decimal.Number.Laws.{is_zero-eq}
use cpp_decimal.Number.Trim.{Trimmed, drop_digits, trailing_zeros, trim}
use cpp_decimal.Number.Trim.Laws.{IsTail, trailing_zeros-IsTail}
use cpp_decimal.Round.Correct.{quotient_lt, ten-add}
use cpp_decimal.Units.{value, d2u, d2u-eq}
use cpp_decimal.Units.Shift.Least.{shift_to_least, shift_to_least-IsQuotient}
use cpp_decimal.Units.Shift.Spread.{pow_even, value-take_all}
use native.Mathlib.Nat.{pow-le-pow_right}

-- The number without its trailing zeros.
pub record IsTrimmed (dn : DecNumber) (t : Trimmed) : Type 0 where
  pub total : value t.number.lsu * 10 ^ t.dropped ≡ value dn.lsu
  pub last : 1 ≤ value t.number.lsu % 10
  pub digits : t.number.digits + t.dropped ≡ dn.digits
  pub exponent : t.number.exponent ≡ dn.exponent +ℤ pos t.dropped
  pub bits : t.number.bits ≡ dn.bits

kept-IsTrimmed :
    (dn : DecNumber) → 1 ≤ value dn.lsu % 10 → IsTrimmed dn (record { number = dn; dropped = 0 })
kept-IsTrimmed dn h = record {
  total = omega arith;
  last = h;
  digits = omega arith;
  exponent = same dn.exponent;
  bits = refl;
}
  where
    same : (x : ℤ) → x ≡ x +ℤ pos 0
    same x = ground arith

-- The units that digits need hold them.
room_for : (m : ℕ) → 10 ^ m ≤ 100 ^ d2u m
room_for m =
    rw (d2u-eq m, sym (pow_even ((m + 1) / 2)))
      (pow-le-pow_right {n = 10} (omega arith) (omega arith))

drop_digits-IsTrimmed :
    (dn : DecNumber) (d head : ℕ)
    → IsCoefficient dn.digits dn.lsu
    → d < dn.digits
    → value dn.lsu ≡ head * 10 ^ d
    → 1 ≤ head % 10
    → IsTrimmed dn (drop_digits dn d)
unfolding drop_digits
drop_digits-IsTrimmed dn d head c short e last =
    let q =
      shift_to_least-IsQuotient dn.lsu d c.units
        (omega (arith, short, c.same_length, d2u-eq dn.digits)) in
    let whole = q.total ∙ divided (value dn.lsu) head (10 ^ d) (one-le-pow d 10 (omega arith)) e in
    let small : head < 10 ^ (dn.digits - d) = quotient_lt head (10 ^ d) (10 ^ (dn.digits - d)) 0 (
      rooms (head * 10 ^ d) (10 ^ d) (10 ^ (dn.digits - d)) (10 ^ dn.digits)
        (ap (λ n. 10 ^ n) (parts dn.digits d short) ∙ ten-add d (dn.digits - d))
        (rw e at c.fits)) in
    let kept =
      value-take_all (d2u (dn.digits - d)) (shift_to_least dn.lsu d)
        (rw whole (omega (arith, small, room_for (dn.digits - d)))) in
    record {
      total = rw (kept, whole) (sym e);
      last = rw (kept, whole) last;
      digits = omega (arith, short);
      exponent = refl;
      bits = refl;
    }
  where
    parts : (n d : ℕ) → d < n → n ≡ d + (n - d)
    parts n d h = omega (arith, h)

    rooms : (v p q r : ℕ) → r ≡ p * q → v < r → v + 0 < p * q
    rooms v p q r e h = omega (arith, e, h)

    divided : (v h p : ℕ) → 0 < p → v ≡ h * p → v / p ≡ h
    divided v h p l e = rw e (grind arith)

odd_last : (us : List ℕ) → has (first_unit us) 0x01 ≡ true → 1 ≤ value us % 10
odd_last [] h = absurd (ground (arith, bit_and-one 0, h))
odd_last (u ∷ us) h = ground (arith, bit_and-one u, h)

-- A valid coefficient that is not 0 has its leading digit.
lead : (d v : ℕ) → (d ≡ 1) ⊎ (10 ^ d ≤ 10 * v) → 0 < d → 0 < v → 10 ^ (d - 1) ≤ v
lead zero v l p h = absurd (omega (arith, p))
lead (suc zero) v l p h = omega (arith, h)
lead (suc (suc d)) v (inl e) p h = absurd (omega (arith, e))
lead (suc (suc d)) v (inr l) p h =
    let one : suc (suc d) - 1 ≡ suc d = omega arith in rw one (omega (arith, l, pow-suc 10 (suc d)))

-- The digit that the trailing zeros come after.
last_digit : (v n d : ℕ) (t : IsTail v n d) → 0 < v → v < 10 ^ suc n → 1 ≤ t.head % 10
last_digit v n d t some fits = by_last t.last
  where
    single : (h p : ℕ) → v ≡ h * p → v < p * 10 → 0 < v → 1 ≤ h % 10
    single h p e f g = omega (arith, below h p (rw e at f), above h p (rw e at g))
      where
        below : (h p : ℕ) → h * p < p * 10 → h < 10
        below h p f = grind arith

        above : (h p : ℕ) → 0 < h * p → 0 < h
        above zero p f = absurd (omega (arith, f))
        above (suc h) p f = omega arith

    by_last : (d ≡ n) ⊎ (1 ≤ t.head % 10) → 1 ≤ t.head % 10
    by_last (inr h) = h
    by_last (inl e) =
        single t.head (10 ^ d) t.total (omega (arith, fits, pow-suc 10 n, ap (λ k. 10 ^ k) e)) some

-- decTrim, for all trailing zeros and without a clamp, on a finite number that is not 0: the last digit of the result
-- is not 0, the digits that are dropped are zeros, which the exponent makes up for, and the sign is kept.
pub trim-IsTrimmed :
    (dn : DecNumber) (set : DecContext) (noclamp : Bool)
    → IsFinite dn
    → is_zero dn ≡ false
    → set.clamp && not noclamp ≡ false
    → IsTrimmed dn (trim dn set true noclamp)
unfolding trim
trim-IsTrimmed dn set noclamp f nz free = elim (Bool-cases (has (first_unit dn.lsu) 0x01)) [
  | inl odd ↦ rw (f.plain, odd) (kept-IsTrimmed dn (odd_last dn.lsu odd))
  | inr even ↦
      rw (nz, f.plain, even)
        (elim (Bool-cases (trailing_zeros true (dn.digits - 1) dn.exponent 1 dn.lsu == 0)) [
          | inl none ↦ rw none (
              kept-IsTrimmed dn
                (first_last (value dn.lsu) t.head _ t.total ((==_iff _ _).0 none) bare))
          | inr more ↦
              rw (more, free)
                (drop_digits-IsTrimmed dn _ t.head c (omega (arith, t.within, c.some_digit)) t.total
                  bare)
        ])
]
  where
    c : IsCoefficient dn.digits dn.lsu
    c = f.coefficient

    positive : 0 < value dn.lsu
    positive = some_value (sym (is_zero-eq dn c f.plain) ∙ nz)
      where
        some_value : {v : ℕ} → (v == 0) ≡ false → 0 < v
        some_value h = ground (arith, h)

    t :
        IsTail
          (value dn.lsu)
          (dn.digits - 1)
          (trailing_zeros true (dn.digits - 1) dn.exponent 1 dn.lsu)
    t =
        trailing_zeros-IsTail (dn.digits - 1) dn.exponent false dn.lsu c.units tt
          (lead dn.digits (value dn.lsu) c.leading c.some_digit positive)

    bare : 1 ≤ t.head % 10
    bare =
        last_digit (value dn.lsu) (dn.digits - 1) _ t positive
          (rw (one dn.digits c.some_digit) c.fits)
      where
        one : (n : ℕ) → 0 < n → suc (n - 1) ≡ n
        one n h = omega (arith, h)

    first_last : (v h d : ℕ) → v ≡ h * 10 ^ d → d ≡ 0 → 1 ≤ h % 10 → 1 ≤ v % 10
    first_last v h d e z l = rw (e, z) (omega (arith, l))
