-- ===== src/Arith/Multiply/Correct.antt =====
-- decMultiplyOp on finite numbers.
use cpp_decimal.Base.{
  ℕ, suc, ◌+◌, ◌*◌, ◌^◌, ◌≤◌, ◌<◌, ◌≡◌, ◌≢◌, inl, inr, refl, arith, sym, ◌∙◌, mul_comm,
}
use cpp_decimal.Base.{
  Bool, true, false, ltb, not, ◌&&◌, if◌then◌else◌, Bool-cases, bit_and, bit_xor, List, [], ◌∷◌,
  length,
}
use cpp_decimal.Base.Int.{wrap_int, ℤ, pos, neg_ℕ, ◌+ℤ◌, ◌-ℤ◌, ◌≤ℤ◌, ltb_ℤ}
use cpp_decimal.Arith.Multiply.{
  multiply_finite, multiply_op, multiply_space, product_exponent, product_units,
}
use cpp_decimal.Arith.Multiply.Chunks.Loop.{multiply_chunks-IsProduct}
use cpp_decimal.Arith.Multiply.Units.Laws.{IsProduct, multiply_units-IsProduct}
use cpp_decimal.Arith.Operand.{kept_operand}
use cpp_decimal.Context.{DecContext}
use cpp_decimal.Number.{DecNumber, IsCoefficient, neg_bit}
use cpp_decimal.Number.Compare.Laws.{IsFinite}
use cpp_decimal.Number.Digits.{get_digits}
use cpp_decimal.Number.Digits.Laws.{IsDigits}
use cpp_decimal.Number.Laws.{either_special}
use cpp_decimal.Round.Coeff.{set_coeff}
use cpp_decimal.Round.Finalize.{finish}
use cpp_decimal.Round.Overflow.{Settled}
use cpp_decimal.Round.Settle.{IsFinished, IsWhole, settle-IsFinished, settle-IsWhole}
use cpp_decimal.Units.{value, d2u-eq}

some_units : (dn : DecNumber) → IsCoefficient dn.digits dn.lsu → 1 ≤ length dn.lsu
some_units dn c = omega (arith, c.same_length, c.some_digit, d2u-eq dn.digits)

product_units-IsProduct :
    (lhs rhs : DecNumber)
    → IsCoefficient lhs.digits lhs.lsu
    → IsCoefficient rhs.digits rhs.lsu
    → IsProduct (value lhs.lsu * value rhs.lsu) (product_units lhs rhs)
unfolding product_units
product_units-IsProduct lhs rhs l r = elim (Bool-cases (ltb 4 rhs.digits)) [
  | inl long ↦
      rw long (multiply_chunks-IsProduct lhs.lsu rhs.lsu l.units r.units (some_units rhs r))
  | inr short ↦
      rw short (multiply_units-IsProduct lhs.lsu rhs.lsu l.units (some_units lhs l) r.units)
]

-- No wrap where the exponent is in the range of the arithmetic.
wrap_int-same : (x : ℤ) → neg_ℕ 999999999 ≤ℤ x → x ≤ℤ pos 1000000000 → wrap_int x ≡ x
wrap_int-same x h k = ground (arith, h, k)

not_both : (l r : ℤ) → ltb_ℤ l (pos 0) && ltb_ℤ r (pos 0) && ltb_ℤ (pos 0) (l +ℤ r) ≡ false
not_both l r = ground arith

product_exponent_lem :
    (l r : ℤ) → neg_ℕ 999999999 ≤ℤ l +ℤ r → l +ℤ r ≤ℤ pos 1000000000 → product_exponent l r ≡ l +ℤ r
unfolding product_exponent
product_exponent_lem l r h k = rw (wrap_int-same (l +ℤ r) h k) (simp (not_both l r))

-- The product is settled as `acc` is, at the sum of the exponents.
multiply_finite-settled :
    (res lhs rhs : DecNumber) (set : DecContext) (bits status : ℕ)
    → neg_ℕ 999999999 ≤ℤ lhs.exponent +ℤ rhs.exponent
    → lhs.exponent +ℤ rhs.exponent ≤ℤ pos 1000000000
    → multiply_finite true res lhs rhs set bits status ≡ (
        let acc = product_units lhs rhs in
        let dn : DecNumber = record res {
          bits = bits;
          digits = get_digits acc;
          exponent = lhs.exponent +ℤ rhs.exponent;
        } in
        let fit = set_coeff dn set acc (get_digits acc) (pos 0) status in
        finish true fit.number set fit.residue fit.status)
unfolding multiply_finite
multiply_finite-settled res lhs rhs set bits status lo hi =
    rw
      (
        stored (multiply_space lhs.digits rhs.digits),
        product_exponent_lem lhs.exponent rhs.exponent lo hi,
      )
      refl
  where
    stored : (b : Bool) → b && not true ≡ false
    stored b = ground arith

-- The operands in the order of their lengths.
abbrev longer : DecNumber → DecNumber → DecNumber
longer lhs rhs = if ltb lhs.digits rhs.digits then rhs else lhs

abbrev shorter : DecNumber → DecNumber → DecNumber
shorter lhs rhs = if ltb lhs.digits rhs.digits then lhs else rhs

multiply_op-finite :
    (res lhs rhs : DecNumber) (set : DecContext) (status : ℕ)
    → set.extended ≡ true
    → IsFinite lhs
    → IsFinite rhs
    → multiply_op true res lhs rhs set status
      ≡ multiply_finite true res
          (longer lhs rhs)
          (shorter lhs rhs)
          set
          (bit_and (bit_xor lhs.bits rhs.bits) neg_bit)
          status
unfolding multiply_op
multiply_op-finite res lhs rhs set status ext l r =
    rw
      (
        either_special lhs.bits rhs.bits l.plain r.plain,
        kept_operand (longer lhs rhs) set status ext,
        kept_operand (shorter lhs rhs) set status ext,
      )
      refl

-- What the operation is asked for: finite operands, and a product of the digits that the precision `p` has, at an
-- exponent of the range.
pub record IsMultiplying (lhs rhs : DecNumber) (set : DecContext) (p : ℕ) : Type 0 where
  pub precision : set.digits ≡ pos p
  pub some_digit : 0 < p
  pub extended : set.extended ≡ true
  pub left : IsFinite lhs
  pub right : IsFinite rhs
  pub emin_limit : neg_ℕ 999999999 ≤ℤ set.emin
  pub emax_limit : set.emax ≤ℤ pos 999999999
  pub above : set.emin ≤ℤ lhs.exponent +ℤ rhs.exponent
  pub below : lhs.exponent +ℤ rhs.exponent ≤ℤ set.emax -ℤ set.digits +ℤ pos 1

-- The same for the operands in the order of their lengths.
record IsOrdered (lhs rhs l s : DecNumber) : Type 0 where
  total : value l.lsu * value s.lsu ≡ value lhs.lsu * value rhs.lsu
  exponent : l.exponent +ℤ s.exponent ≡ lhs.exponent +ℤ rhs.exponent
  long : IsFinite l
  short : IsFinite s

ordered :
    (lhs rhs : DecNumber)
    → IsFinite lhs
    → IsFinite rhs
    → IsOrdered lhs rhs (longer lhs rhs) (shorter lhs rhs)
ordered lhs rhs l r = elim (Bool-cases (ltb lhs.digits rhs.digits)) [
  | inl swap ↦ rw swap (record {
    total = mul_comm (value rhs.lsu) (value lhs.lsu);
    exponent = plus_comm rhs.exponent lhs.exponent;
    long = r;
    short = l;
  })
  | inr keep ↦ rw keep (record { total = refl; exponent = refl; long = l; short = r })
]
  where
    plus_comm : (x y : ℤ) → x +ℤ y ≡ y +ℤ x
    plus_comm x y = ground arith

exponent_low : (m x : ℤ) → neg_ℕ 999999999 ≤ℤ m → m ≤ℤ x → neg_ℕ 999999999 ≤ℤ x
exponent_low m x h k = ground (arith, h, k)

exponent_high :
    (m x g : ℤ) (p : ℕ)
    → g ≡ pos p
    → m ≤ℤ pos 999999999
    → x ≤ℤ m -ℤ g +ℤ pos 1
    → x ≤ℤ pos 1000000000
exponent_high m x g p e h k = ground (arith, h, k, e)

-- Operands in order, without storage limits.
settled :
    (res lhs rhs : DecNumber) (set : DecContext) (status p : ℕ)
    → IsMultiplying lhs rhs set p
    → multiply_op true res lhs rhs set status ≡ (
        let acc = product_units (longer lhs rhs) (shorter lhs rhs) in
        let dn : DecNumber = record res {
          bits = bit_and (bit_xor lhs.bits rhs.bits) neg_bit;
          digits = get_digits acc;
          exponent = (longer lhs rhs).exponent +ℤ (shorter lhs rhs).exponent;
        } in
        let fit = set_coeff dn set acc (get_digits acc) (pos 0) status in
        finish true fit.number set fit.residue fit.status)
settled res lhs rhs set status p f =
    let o = ordered lhs rhs f.left f.right in
    multiply_op-finite res lhs rhs set status f.extended f.left f.right
    ∙ multiply_finite-settled res (longer lhs rhs) (shorter lhs rhs) set _ status
        (rw o.exponent (exponent_low set.emin _ f.emin_limit f.above))
        (rw o.exponent (exponent_high set.emax _ set.digits p f.precision f.emax_limit f.below))

not_empty : (us : List ℕ) → 1 ≤ length us → us ≢ []
not_empty [] h = absurd (omega arith)
not_empty (u ∷ us) h = λ e. cc e

-- A product within the precision `p`.
pub multiply_op-IsWhole :
    (res lhs rhs : DecNumber) (set : DecContext) (status p : ℕ)
    → IsMultiplying lhs rhs set p
    → value lhs.lsu * value rhs.lsu < 10 ^ p
    → IsWhole
        (value lhs.lsu * value rhs.lsu)
        (bit_and (bit_xor lhs.bits rhs.bits) neg_bit)
        (lhs.exponent +ℤ rhs.exponent)
        status
        (multiply_op true res lhs rhs set status)
multiply_op-IsWhole res lhs rhs set status p f small =
    let o = ordered lhs rhs f.left f.right in
    let acc = product_units (longer lhs rhs) (shorter lhs rhs) in
    let u =
      product_units-IsProduct (longer lhs rhs) (shorter lhs rhs) o.long.coefficient
        o.short.coefficient in
    let dn : DecNumber = record res {
      bits = bit_and (bit_xor lhs.bits rhs.bits) neg_bit;
      digits = get_digits acc;
      exponent = (longer lhs rhs).exponent +ℤ (shorter lhs rhs).exponent;
    } in
    whole (u.total ∙ o.total) o.exponent (settled res lhs rhs set status p f) (
      settle-IsWhole dn set acc status p f.precision f.some_digit f.extended u.is_units
        (not_empty acc u.some_units) (rw (u.total, o.total) small) (rw o.exponent f.above)
        (rw o.exponent f.below))
  where
    whole :
        {n n' b s : ℕ} {e e' : ℤ} {r r' : Settled}
        → n ≡ n'
        → e ≡ e'
        → r' ≡ r
        → IsWhole n b e s r
        → IsWhole n' b e' s r'
    whole f g h w = rw (sym f, sym g, h) w

-- A product of `suc d` digits more than the precision `suc p`.
pub multiply_op-IsFinished :
    (res lhs rhs : DecNumber) (set : DecContext) (status p d : ℕ)
    → IsMultiplying lhs rhs set (suc p)
    → IsDigits (value lhs.lsu * value rhs.lsu) (suc p + suc d)
    → lhs.exponent +ℤ rhs.exponent +ℤ pos (suc d) +ℤ pos 1 ≤ℤ set.emax -ℤ set.digits +ℤ pos 1
    → IsFinished
        (value lhs.lsu * value rhs.lsu)
        p
        d
        set.round
        (bit_and (bit_xor lhs.bits rhs.bits) neg_bit)
        (lhs.exponent +ℤ rhs.exponent)
        (multiply_op true res lhs rhs set status)
multiply_op-IsFinished res lhs rhs set status p d f digits hi =
    let o = ordered lhs rhs f.left f.right in
    let acc = product_units (longer lhs rhs) (shorter lhs rhs) in
    let u =
      product_units-IsProduct (longer lhs rhs) (shorter lhs rhs) o.long.coefficient
        o.short.coefficient in
    let dn : DecNumber = record res {
      bits = bit_and (bit_xor lhs.bits rhs.bits) neg_bit;
      digits = get_digits acc;
      exponent = (longer lhs rhs).exponent +ℤ (shorter lhs rhs).exponent;
    } in
    finished (u.total ∙ o.total) o.exponent (settled res lhs rhs set status (suc p) f) (
      settle-IsFinished dn set acc status p d f.precision f.extended u.is_units
        (not_empty acc u.some_units) (rw (u.total, o.total) digits) (rw o.exponent f.above)
        (rw o.exponent hi))
  where
    finished :
        {n n' b : ℕ} {e e' : ℤ} {r r' : Settled}
        → n ≡ n'
        → e ≡ e'
        → r' ≡ r
        → IsFinished n p d set.round b e r
        → IsFinished n' p d set.round b e' r'
    finished f g h w = rw (sym f, sym g, h) w
