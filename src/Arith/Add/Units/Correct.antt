-- ===== src/Arith/Add/Units/Correct.antt =====
-- decAddOp on aligned operands is correctly rounded.
use cpp_decimal.Base.{
  ℕ, zero, suc, ◌+◌, ◌*◌, ◌/◌, ◌^◌, ◌≤◌, ◌<◌, ◌≡◌, ◌≢◌, inr, refl, arith, ap, sym, ◌∙◌,
}
use cpp_decimal.Base.{
  Bool, true, false, has, ltb, ◌==◌, not, ◌&&◌, ◌||◌, if◌then◌else◌, List, [], ◌∷◌, length, pow-suc,
  one-le-pow,
}
use cpp_decimal.Base.Int.{ℤ, pos, ◌+ℤ◌, ◌-ℤ◌, ◌≤ℤ◌, ltb_ℤ, leb_ℤ, neg_ℕ, pos_part, neg_part}
use cpp_decimal.Arith.Add.Units.{
  add_units, fit_sum, add_aligned, zero_difference, unit_shift, sum_buffer_units,
}
use cpp_decimal.Arith.Add.Units.Sum.{signed_sum, add_units-IsExact}
use cpp_decimal.Context.{DecContext, Rounding}
use cpp_decimal.Number.{DecNumber, IsCoefficient, is_negative, is_zero, neg_bit}
use cpp_decimal.Number.Digits.{recount}
use cpp_decimal.Number.Digits.Laws.{IsDigits}
use cpp_decimal.Round.Correct.{ten-add}
use cpp_decimal.Round.Finalize.{finish}
use cpp_decimal.Round.Overflow.{Settled}
use cpp_decimal.Round.Spec.{IsScaled, round_quotient}
use cpp_decimal.Units.{value, d2u, d2u-eq}
use native.Mathlib.Nat.{pow-le-pow_right}
use cpp_decimal.Arith.Add.Units.Rounded.{fit_sum-IsFinished}
use cpp_decimal.Round.Settle.{IsScaled-at}
use cpp_decimal.Number.{special_bits}
use cpp_decimal.Base.{==_iff}
use native.Mathlib.Decide.{dec_lt}

-- A rounded coefficient that is not 0 is not a zero.
nonzero :
    (dn : DecNumber) {n k : ℕ} {e : ℤ} {b : ℕ} → IsScaled n k e b dn → 0 < n → is_zero dn ≡ false
nonzero dn {n} {k} s h =
    unit_case dn.lsu dn.digits dn.bits (at_digits s.same_digits s.fits)
      (positive (value dn.lsu) (10 ^ s.shift) s.total h)
  where
    at_digits : {c m v : ℕ} → c ≡ m → v < 10 ^ m → v < 10 ^ c
    at_digits e f = rw e f

    positive : (v t : ℕ) → v * t ≡ n → 0 < n → 0 < v
    positive zero t e h = absurd (omega (arith, e, h))
    positive (suc v) t e h = omega arith

    unit_case :
        (us : List ℕ) (c b : ℕ)
        → value us < 10 ^ c
        → 0 < value us
        → is_zero (record { digits = c; exponent = pos 0; bits = b; lsu = us }) ≡ false
    unit_case [] c b f g = absurd (omega (arith, g))
    unit_case (u ∷ us) c b f g =
        conj (u == 0) (c == 1) (not (has b special_bits)) (λ z one. both u c z one f g)
      where
        conj : (x y z : Bool) → (x ≡ true → y ≡ true → ⊥) → x && y && z ≡ false
        conj true true z h = absurd (h refl refl)
        conj true false z h = refl
        conj false y z h = refl

        both :
            (u c : ℕ)
            → (u == 0) ≡ true
            → (c == 1) ≡ true
            → u + 100 * value us < 10 ^ c
            → 0 < u + 100 * value us
            → ⊥
        both u c z one f g =
            let e : u ≡ 0 = (==_iff u 0).0 z in
            let k : c ≡ 1 = (==_iff c 1).0 one in omega (arith, e, g, rw k at f)

signed_sum_small :
    (n d : Bool) (a b : ℕ) → pos_part (signed_sum n d a b) + neg_part (signed_sum n d a b) ≤ a + b
signed_sum_small true true a b = ground arith
signed_sum_small true false a b = ground arith
signed_sum_small false true a b = ground arith
signed_sum_small false false a b = ground arith

-- A sum longer than the precision needs the buffer.
buffered :
    (l r lv rv t m p : ℕ)
    → lv < 10 ^ l
    → rv < 10 ^ r
    → 10 ^ suc p ≤ lv + rv * 10 ^ t
    → m ≡ (if ltb (r + t) l then l else r + t)
    → suc p ≤ m
buffered l r lv rv t m p hl hr large e = elim (dec_lt p m) [
  | yes long ↦ long
  | no short ↦
      let left : lv < 10 ^ p = below l lv hl (within_left short) in
      let right : rv * 10 ^ t ≤ 10 ^ p = scaled_le rv r t hr (within_right short) in
      absurd (omega (arith, large, pow-suc 10 p, left, right))
]
  where
    within_left : ¬ (p < m) → l ≤ p
    within_left h = bound l (r + t) m p e (omega (arith, h))
      where
        bound : (a b m p : ℕ) → m ≡ (if ltb b a then a else b) → m ≤ p → a ≤ p
        bound a b m p e h = ground (arith, e, h)

    within_right : ¬ (p < m) → r + t ≤ p
    within_right h = bound l (r + t) m p e (omega (arith, h))
      where
        bound : (a b m p : ℕ) → m ≡ (if ltb b a then a else b) → m ≤ p → b ≤ p
        bound a b m p e h = ground (arith, e, h)

    below : (k v : ℕ) → v < 10 ^ k → k ≤ p → v < 10 ^ p
    below k v f g = omega (arith, f, pow-le-pow_right {n = 10} (omega arith) g)

    mul_mono : (a b c : ℕ) → a ≤ b → a * c ≤ b * c
    mul_mono a b c h = grind arith

    scaled_le : (v k t : ℕ) → v < 10 ^ k → k + t ≤ p → v * 10 ^ t ≤ 10 ^ p
    scaled_le v k t f g = omega (
      arith,
      mul_mono v (10 ^ k) (10 ^ t) (omega (arith, f)),
      ten-add k t,
      pow-le-pow_right {n = 10} (omega arith) g,
    )

sign_of :
    (n : Bool) (v : ℕ) (x : ℤ) → (if n then neg_ℕ v else pos v) ≡ x → 0 < v → n ≡ ltb_ℤ x (pos 0)
sign_of true v x e h = rw (sym e) (negative v h)
  where
    negative : (v : ℕ) → 0 < v → true ≡ ltb_ℤ (neg_ℕ v) (pos 0)
    negative zero h = absurd (omega arith)
    negative (suc v) h = ground arith
sign_of false v x e h = rw (sym e) (ground arith)

pub size_of :
    (n : Bool) (v : ℕ) (x : ℤ) → (if n then neg_ℕ v else pos v) ≡ x → v ≡ pos_part x + neg_part x
size_of true zero x e = rw (sym e) (omega arith)
size_of true (suc v) x e = rw (sym e) (ground arith)
size_of false v x e = rw (sym e) (omega arith)

-- The sum `x`, in units of 10 ^ `e`, rounded once to `suc p` digits by the mode, `suc d` digits of it gone.
pub record IsRoundedSum (x : ℤ) (p d : ℕ) (mode : Rounding) (e : ℤ) (r : Settled) : Type 0 where
  pub scaled :
      IsScaled
        (round_quotient mode (ltb_ℤ x (pos 0)) (pos_part x + neg_part x) (10 ^ suc d))
        (suc p)
        (e +ℤ pos (suc d))
        r.number.bits
        r.number
  pub sign : is_negative r.number ≡ ltb_ℤ x (pos 0)

quotient_positive :
    (mode : Rounding) (negative : Bool) (j : ℕ) {v : ℕ}
    → 10 ^ j ≤ v
    → 0 < round_quotient mode negative v (10 ^ j)
unfolding round_quotient
quotient_positive mode negative j {v} h =
    let one = divided v (10 ^ j) h (one-le-pow j 10 (omega arith)) in omega (arith, one)
  where
    divided : (v m : ℕ) → m ≤ v → 0 < m → 0 < v / m
    divided v m h k = grind arith

zero_difference_keeps :
    (s : Settled) (set : DecContext) (diffsign : Bool)
    → is_zero s.number ≡ false
    → zero_difference s set diffsign ≡ s
unfolding zero_difference
zero_difference_keeps s set diffsign h = rw h refl

-- decAddOp on aligned operands, with storage and for extended arithmetic. When the exact sum has `suc d` digits more
-- than the precision `suc p`, the lower exponent is emin or more, and the exponent of the cut sum has room
-- for a carry below the clamp, the result is the exact sum rounded once by the context's mode, with its
-- sign.
pub add_aligned-IsRoundedSum :
    (overlap : Bool) (res lhs rhs : DecNumber) (padding : ℕ) (set : DecContext) (bits : ℕ)
    (diffsign : Bool) (status p d : ℕ)
    → set.digits ≡ pos (suc p)
    → set.extended ≡ true
    → IsCoefficient lhs.digits lhs.lsu
    → IsCoefficient rhs.digits rhs.lsu
    → set.emin ≤ℤ lhs.exponent
    → lhs.exponent +ℤ pos (suc d) +ℤ pos 1 ≤ℤ set.emax -ℤ set.digits +ℤ pos 1
    → let x =
        signed_sum (has bits neg_bit) diffsign (value lhs.lsu) (value rhs.lsu * 10 ^ padding) in
      10 ^ (p + suc d) ≤ pos_part x + neg_part x
      → pos_part x + neg_part x < 10 ^ (suc p + suc d)
      → IsRoundedSum x p d set.round lhs.exponent
          (add_aligned true overlap res lhs rhs padding set bits diffsign status)
unfolding add_aligned
add_aligned-IsRoundedSum overlap res lhs rhs padding set bits diffsign status p d prec ext cl cr lo
      hi large small =
    let x = signed_sum (has bits neg_bit) diffsign (value lhs.lsu) (value rhs.lsu * 10 ^ padding) in
    let sum = add_units lhs rhs padding bits diffsign in
    let s = add_units-IsExact lhs rhs padding bits diffsign cl.units cr.units (some_units lhs cl) in
    let size = size_of (is_negative sum) (value sum.lsu) x s.total in
    let digits : IsDigits (value sum.lsu) (suc p + suc d) = rw size (record {
      some_digit = omega arith;
      fits = small;
      leading = inr (omega (arith, large, ten_more p (suc d)));
    }) in
    let maxdigits =
      if ltb (rhs.digits + padding) lhs.digits then lhs.digits else rhs.digits + padding in
    let room =
      buffered lhs.digits rhs.digits (value lhs.lsu) (value rhs.lsu) padding maxdigits p cl.fits
        cr.fits
        (omega (
          arith,
          large,
          signed_sum_small (has bits neg_bit) diffsign (value lhs.lsu)
              (value rhs.lsu * 10 ^ padding),
          longer p d,
        ))
        refl in
    let r =
      fit_sum-IsFinished sum set status p d prec ext s.units (not_empty sum.lsu s.some_units)
        s.digits digits (rw s.exponent lo) (rw s.exponent hi) in
    let done =
      finish true (recount (fit_sum sum set status).number) set (fit_sum sum set status).residue
        (fit_sum sum set status).status in
    let kept =
      zero_difference_keeps done set diffsign
        (nonzero done.number (r.scaled) (quotient_positive _ _ _ (rw size (longest p d large)))) in
    let taken : add_aligned true overlap res lhs rhs padding set bits diffsign status ≡ done =
      rw
        (
          is_buffered set.digits maxdigits p (overlap && ltb 0 (unit_shift padding)) prec room,
          stored (ltb sum_buffer_units (d2u maxdigits + 1)),
        )
        (simp ext kept) in
    let negative =
      sign_of (is_negative sum) (value sum.lsu) x s.total (rw size (positive (p + suc d) large)) in
    moved taken (record {
      scaled =
          IsScaled-at (rw (negative, size) refl) (ap (λ t. t +ℤ pos (suc d)) s.exponent)
            (sym r.scaled.bits) r.scaled;
      sign = ap (λ t. has t neg_bit) r.scaled.bits ∙ negative;
    })
  where
    some_units : (dn : DecNumber) → IsCoefficient dn.digits dn.lsu → 1 ≤ length dn.lsu
    some_units dn c = omega (arith, c.same_length, c.some_digit, d2u-eq dn.digits)

    not_empty : (us : List ℕ) → 1 ≤ length us → us ≢ []
    not_empty [] h = absurd (omega arith)
    not_empty (u ∷ us) h = λ e. cc e

    ten_more : (k j : ℕ) → 10 ^ (suc k + j) ≡ 10 * 10 ^ (k + j)
    ten_more k j = rw (plus_one k j) (omega (arith, pow-suc 10 (k + j)))
      where
        plus_one : (k j : ℕ) → suc k + j ≡ suc (k + j)
        plus_one k j = omega arith

    longer : (k j : ℕ) → 10 ^ suc k ≤ 10 ^ (k + suc j)
    longer k j = pow-le-pow_right {n = 10} (omega arith) (omega arith)

    longest : (k j : ℕ) {m : ℕ} → 10 ^ (k + suc j) ≤ m → 10 ^ suc j ≤ m
    longest k j h =
        let grow : 10 ^ suc j ≤ 10 ^ (k + suc j) =
          pow-le-pow_right {n = 10} (omega arith) (omega arith) in
        omega (arith, h, grow)

    positive : (k : ℕ) {m : ℕ} → 10 ^ k ≤ m → 0 < m
    positive k h = omega (arith, h, one-le-pow k 10 (omega arith))

    stored : (b : Bool) → (true && b && not true) ≡ false
    stored b = ground arith

    is_buffered :
        (g : ℤ) (m p : ℕ) (b : Bool) → g ≡ pos (suc p) → suc p ≤ m → leb_ℤ g (pos m) || b ≡ true
    is_buffered g m p b e h = rw e (ground (arith, h))

    moved :
        {x : ℤ} {e : ℤ} {r r' : Settled}
        → r' ≡ r
        → IsRoundedSum x p d set.round e r
        → IsRoundedSum x p d set.round e r'
    moved e s = rw e s
