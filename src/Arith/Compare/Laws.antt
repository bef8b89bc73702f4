-- ===== src/Arith/Compare/Laws.antt =====
-- decCompareOp on finite numbers: the signum of the comparison, and the total order.
use cpp_decimal.Base.{ℕ, ◌<◌, ◌≡◌, ◌≢◌, ◌⊎◌, inl, inr, refl, arith, ap}
use cpp_decimal.Base.{true, false, [], ◌∷◌, some}
use cpp_decimal.Base.Int.{ℤ, pos, negsuc, ltb_ℤ}
use cpp_decimal.Arith.Compare.{
  CompareOp, Verdict, is_magnitude, compare_op, compare_operands, of_comparison, settle_verdict,
  signum_number, by_exponent,
}
use cpp_decimal.Arith.Operand.{reduce_operand}
use cpp_decimal.Context.{DecContext}
use cpp_decimal.Number.{DecNumber, IsCoefficient}
use cpp_decimal.Number.Compare.Laws.{
  IsFinite, IsNear, amount, aligned, order_ℤ, compare_numbers_lem,
}
use cpp_decimal.Number.Int32.Laws.{signed}
use cpp_decimal.Number.Laws.{either_nan}
use cpp_decimal.Round.Overflow.{Settled}
use cpp_decimal.Units.{d2u}
use cpp_decimal.Base.{Bool-cases}

-- How decCompareOp goes on with two finite operands that need no rounding.
pub compare_op-finite :
    (res lhs rhs : DecNumber) (set : DecContext) (op : CompareOp) (status : ℕ) (c : ℤ)
    → set.extended ≡ true
    → compare_operands true lhs rhs set op status ≡ Verdict.ordered op c
    → compare_op true res lhs rhs set op status
      ≡ settle_verdict true res lhs rhs set status (Verdict.ordered op c)
unfolding compare_op reduce_operand
compare_op-finite res lhs rhs set op status c e h =
    taken (reduced lhs) (reduced rhs) (ap (settle_verdict true res lhs rhs set status) h)
  where
    reduced :
        (dn : DecNumber)
        → reduce_operand true dn set status ≡ some (record { number = dn; status = status })
    reduced dn = simp e refl

    taken :
        {r : Settled}
        → reduce_operand true lhs set status ≡ some (record { number = lhs; status = status })
        → reduce_operand true rhs set status ≡ some (record { number = rhs; status = status })
        → settle_verdict true res lhs rhs set status (compare_operands true lhs rhs set op status)
          ≡ r
        → compare_op true res lhs rhs set op status ≡ r
    taken a b c = rw (compare_op, a, b) c

-- How two finite numbers compare.
abbrev pub compared : CompareOp → DecNumber → DecNumber → ℤ
compared op lhs rhs =
    order_ℤ (amount (is_magnitude op) lhs (aligned lhs rhs))
      (amount (is_magnitude op) rhs (aligned rhs lhs))

pub finite_ordered :
    (lhs rhs : DecNumber) (set : DecContext) (op : CompareOp) (status : ℕ)
    → IsFinite lhs
    → IsFinite rhs
    → IsNear lhs rhs
    → op ≢ CompareOp.comptotal
    → compare_operands true lhs rhs set op status ≡ Verdict.ordered op (compared op lhs rhs)
unfolding compare_operands of_comparison
finite_ordered lhs rhs set CompareOp.comptotal status fl fr near ne = absurd (ne refl)
finite_ordered lhs rhs set CompareOp.compare status fl fr near ne =
    rw
      (either_nan lhs.bits rhs.bits fl.plain fr.plain, compare_numbers_lem lhs rhs false fl fr near)
      refl
finite_ordered lhs rhs set CompareOp.compsig status fl fr near ne =
    rw
      (either_nan lhs.bits rhs.bits fl.plain fr.plain, compare_numbers_lem lhs rhs false fl fr near)
      refl
finite_ordered lhs rhs set CompareOp.compmax status fl fr near ne =
    rw
      (either_nan lhs.bits rhs.bits fl.plain fr.plain, compare_numbers_lem lhs rhs false fl fr near)
      refl
finite_ordered lhs rhs set CompareOp.compmin status fl fr near ne =
    rw
      (either_nan lhs.bits rhs.bits fl.plain fr.plain, compare_numbers_lem lhs rhs false fl fr near)
      refl
finite_ordered lhs rhs set CompareOp.compmaxmag status fl fr near ne =
    rw (either_nan lhs.bits rhs.bits fl.plain fr.plain, compare_numbers_lem lhs rhs true fl fr near)
      refl
finite_ordered lhs rhs set CompareOp.compminmag status fl fr near ne =
    rw (either_nan lhs.bits rhs.bits fl.plain fr.plain, compare_numbers_lem lhs rhs true fl fr near)
      refl

-- The result is the number `c`, of exponent 0 and in a valid form, and the status is as it was.
pub record IsSignum (c : ℤ) (flags : ℕ) (r : Settled) : Type 0 where
  pub total : signed r.number ≡ c
  pub coefficient : IsCoefficient r.number.digits r.number.lsu
  pub exponent : r.number.exponent ≡ pos 0
  pub status : r.status ≡ flags

one_digit : (u : ℕ) → u < 10 → IsCoefficient 1 (u ∷ [])
unfolding d2u
one_digit u h = record {
  units = (omega arith, tt);
  same_length = refl;
  some_digit = omega arith;
  fits = omega arith;
  leading = inl refl;
}

abbrev pub IsUnit_ℤ : ℤ → Type 0
IsUnit_ℤ c = (c ≡ negsuc 0) ⊎ ((c ≡ pos 0) ⊎ (c ≡ pos 1))

pub signum_number-IsSignum :
    (c : ℤ) (status : ℕ)
    → IsUnit_ℤ c
    → IsSignum c status (record { number = signum_number c; status = status })
unfolding signum_number
signum_number-IsSignum c status (inl e) = rw e (record {
  total = refl;
  coefficient = one_digit 1 (omega arith);
  exponent = refl;
  status = refl;
})
signum_number-IsSignum c status (inr (inl e)) = rw e (record {
  total = refl;
  coefficient = one_digit 0 (omega arith);
  exponent = refl;
  status = refl;
})
signum_number-IsSignum c status (inr (inr e)) = rw e (record {
  total = refl;
  coefficient = one_digit 1 (omega arith);
  exponent = refl;
  status = refl;
})

pub order_ℤ-IsUnit_ℤ : (x y : ℤ) → IsUnit_ℤ (order_ℤ x y)
order_ℤ-IsUnit_ℤ x y = elim (Bool-cases (ltb_ℤ y x)) [
  | inl e ↦ rw e (inr (inr refl))
  | inr e ↦ elim (Bool-cases (ltb_ℤ x y)) [
    | inl f ↦ rw (e, f) (inl refl)
    | inr f ↦ rw (e, f) (inr (inl refl))
  ]
]

pub compared-IsUnit_ℤ : (op : CompareOp) (lhs rhs : DecNumber) → IsUnit_ℤ (compared op lhs rhs)
compared-IsUnit_ℤ op lhs rhs =
    order_ℤ-IsUnit_ℤ (amount (is_magnitude op) lhs (aligned lhs rhs))
      (amount (is_magnitude op) rhs (aligned rhs lhs))

pub moved :
    {c : ℤ} {status : ℕ} {r r' : Settled} → IsSignum c status r → r' ≡ r → IsSignum c status r'
moved s e = rw e s

-- decCompareOp for COMPARE, with storage and for extended arithmetic: on two valid finite numbers whose exponents
-- differ by at most 2147483646 the result is the number -1, 0 or 1 as the first one's value is less than, equal to or greater than the
-- second one's, and no status bit is added.
pub compare_op-IsSignum :
    (res lhs rhs : DecNumber) (set : DecContext) (status : ℕ)
    → set.extended ≡ true
    → IsFinite lhs
    → IsFinite rhs
    → IsNear lhs rhs
    → IsSignum
        (order_ℤ (amount false lhs (aligned lhs rhs)) (amount false rhs (aligned rhs lhs)))
        status
        (compare_op true res lhs rhs set CompareOp.compare status)
unfolding settle_verdict by_exponent
compare_op-IsSignum res lhs rhs set status e fl fr near =
    let c = compared CompareOp.compare lhs rhs in
    moved (signum_number-IsSignum c status (compared-IsUnit_ℤ CompareOp.compare lhs rhs)) (
      compare_op-finite res lhs rhs set CompareOp.compare status c e
        (finite_ordered lhs rhs set CompareOp.compare status fl fr near (λ h. cc h)))
