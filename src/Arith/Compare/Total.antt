-- ===== src/Arith/Compare/Total.antt =====
-- decCompareOp for COMPTOTAL: the total order of finite numbers.
use cpp_decimal.Base.{ℕ, ◌≡◌, inl, inr, refl, arith, ap, sym, ◌∙◌}
use cpp_decimal.Base.{Bool, true, false, not, ◌&&◌, if◌then◌else◌}
use cpp_decimal.Base.Int.{eq_of_parts, ℤ, pos, negsuc, neg, neg_ℕ, ltb_ℤ, eqb_ℤ}
use cpp_decimal.Arith.Compare.{
  CompareOp, Verdict, compare_op, compare_operands, of_comparison, settle_verdict, signum_number,
  by_exponent,
}
use cpp_decimal.Context.{DecContext}
use cpp_decimal.Number.{DecNumber, is_negative}
use cpp_decimal.Number.Compare.Laws.{
  IsFinite, IsNear, amount, aligned, order_ℤ, compare_numbers_lem, no_shift,
}
use cpp_decimal.Number.Int32.Laws.{signed}
use cpp_decimal.Number.Laws.{either_nan}
use cpp_decimal.Units.{value}
use cpp_decimal.Arith.Compare.Laws.{
  IsSignum, IsUnit_ℤ, compared, compare_op-finite, compared-IsUnit_ℤ, moved, order_ℤ-IsUnit_ℤ,
  signum_number-IsSignum,
}

-- The total order: the sign, then the value, then the exponent, which counts down for negative numbers.
abbrev pub total_order : DecNumber → DecNumber → ℤ
total_order lhs rhs =
    if is_negative lhs && not (is_negative rhs)
    then negsuc 0
    else if not (is_negative lhs) && is_negative rhs
    then pos 1
    else (let c =
          order_ℤ (amount false lhs (aligned lhs rhs)) (amount false rhs (aligned rhs lhs)) in
        if not (eqb_ℤ c (pos 0))
        then c
        else if is_negative lhs
        then order_ℤ rhs.exponent lhs.exponent
        else order_ℤ lhs.exponent rhs.exponent)

-- The signs come first.
abbrev signs_first : Bool → Bool → ℤ → ℤ
signs_first n m c = if n && not m then negsuc 0 else if not n && m then pos 1 else c

total_ordered :
    (lhs rhs : DecNumber) (set : DecContext) (status : ℕ)
    → IsFinite lhs
    → IsFinite rhs
    → IsNear lhs rhs
    → compare_operands true lhs rhs set CompareOp.comptotal status
      ≡ Verdict.ordered CompareOp.comptotal
          (signs_first (is_negative lhs) (is_negative rhs) (compared CompareOp.comptotal lhs rhs))
unfolding compare_operands of_comparison
total_ordered lhs rhs set status fl fr near =
    rw
      (either_nan lhs.bits rhs.bits fl.plain fr.plain, compare_numbers_lem lhs rhs false fl fr near)
      (by_signs (is_negative lhs) (is_negative rhs) _)
  where
    by_signs :
        (n m : Bool) (c : ℤ)
        → (if n && not m
            then Verdict.ordered CompareOp.comptotal (negsuc 0)
            else if not n && m
            then Verdict.ordered CompareOp.comptotal (pos 1)
            else Verdict.ordered CompareOp.comptotal c)
          ≡ Verdict.ordered CompareOp.comptotal (signs_first n m c)
    by_signs true true c = refl
    by_signs true false c = refl
    by_signs false true c = refl
    by_signs false false c = refl

then_exponents :
    (n m : Bool) (c x y : ℤ)
    → IsUnit_ℤ c
    → (let first = signs_first n m c in
        if eqb_ℤ first (pos 0) && not (eqb_ℤ x y)
        then (let higher = if ltb_ℤ x y then negsuc 0 else pos 1 in
            if n then neg higher else higher)
        else first)
      ≡ (if n && not m
          then negsuc 0
          else if not n && m
          then pos 1
          else if not (eqb_ℤ c (pos 0))
          then c
          else if n
          then order_ℤ y x
          else order_ℤ x y)
then_exponents true false c x y h = refl
then_exponents false true c x y h = refl
then_exponents true true c x y (inl e) = rw e refl
then_exponents true true c x y (inr (inr e)) = rw e refl
then_exponents true true c x y (inr (inl e)) = rw e (ground arith)
then_exponents false false c x y (inl e) = rw e refl
then_exponents false false c x y (inr (inr e)) = rw e refl
then_exponents false false c x y (inr (inl e)) = rw e (ground arith)

total_order-IsUnit_ℤ : (lhs rhs : DecNumber) → IsUnit_ℤ (total_order lhs rhs)
total_order-IsUnit_ℤ lhs rhs =
    by_signs (is_negative lhs) (is_negative rhs) (compared CompareOp.comptotal lhs rhs) lhs.exponent
      rhs.exponent (compared-IsUnit_ℤ CompareOp.comptotal lhs rhs)
  where
    unequal : (b : Bool) (c x : ℤ) → IsUnit_ℤ c → IsUnit_ℤ x → IsUnit_ℤ (if b then c else x)
    unequal true c x h k = h
    unequal false c x h k = k

    by_signs :
        (n m : Bool) (c x y : ℤ)
        → IsUnit_ℤ c
        → IsUnit_ℤ (
            if n && not m
            then negsuc 0
            else if not n && m
            then pos 1
            else if not (eqb_ℤ c (pos 0))
            then c
            else if n
            then order_ℤ y x
            else order_ℤ x y)
    by_signs true false c x y h = (inl refl)
    by_signs false true c x y h = (inr (inr refl))
    by_signs true true c x y h =
        unequal (not (eqb_ℤ c (pos 0))) c (order_ℤ y x) h (order_ℤ-IsUnit_ℤ y x)
    by_signs false false c x y h =
        unequal (not (eqb_ℤ c (pos 0))) c (order_ℤ x y) h (order_ℤ-IsUnit_ℤ x y)

-- decCompareOp for COMPTOTAL, with storage and for extended arithmetic: on two valid finite numbers
-- whose exponents differ by at most 2147483646 the result is the number -1, 0 or 1 that the total order gives, and no status bit is added.
pub compare_total-IsSignum :
    (res lhs rhs : DecNumber) (set : DecContext) (status : ℕ)
    → set.extended ≡ true
    → IsFinite lhs
    → IsFinite rhs
    → IsNear lhs rhs
    → IsSignum
        (total_order lhs rhs)
        status
        (compare_op true res lhs rhs set CompareOp.comptotal status)
unfolding settle_verdict by_exponent
compare_total-IsSignum res lhs rhs set status e fl fr near =
    let c =
      signs_first (is_negative lhs) (is_negative rhs) (compared CompareOp.comptotal lhs rhs) in
    moved (signum_number-IsSignum (total_order lhs rhs) status (total_order-IsUnit_ℤ lhs rhs)) (
      compare_op-finite res lhs rhs set CompareOp.comptotal status c e
        (total_ordered lhs rhs set status fl fr near)
      ∙ ap (λ t. record { number = signum_number t; status = status })
          (then_exponents (is_negative lhs) (is_negative rhs) _ lhs.exponent rhs.exponent
            (compared-IsUnit_ℤ CompareOp.comptotal lhs rhs)))

-- The total order is antisymmetric.
pub order_ℤ_flip : (a b : ℤ) → order_ℤ b a ≡ neg (order_ℤ a b)
order_ℤ_flip a b = ground arith

order_ℤ_zero : (a b : ℤ) → order_ℤ a b ≡ pos 0 → a ≡ b
order_ℤ_zero a b h = eq_of_parts a b (ground (arith, h))

abbrev pub first_unequal : ℤ → ℤ → ℤ
first_unequal c d = if not (eqb_ℤ c (pos 0)) then c else d

pub first_unequal_flip :
    (c d : ℤ) → IsUnit_ℤ c → first_unequal (neg c) (neg d) ≡ neg (first_unequal c d)
first_unequal_flip c d (inl e) = rw e refl
first_unequal_flip c d (inr (inl e)) = rw e refl
first_unequal_flip c d (inr (inr e)) = rw e refl

first_unequal_zero : (c d : ℤ) → IsUnit_ℤ c → first_unequal c d ≡ pos 0 → (c ≡ pos 0) × (d ≡ pos 0)
first_unequal_zero c d (inl e) h = absurd (negative (rw e at h))
  where
    negative : negsuc 0 ≡ pos 0 → ⊥
    negative h = cc h
first_unequal_zero c d (inr (inl e)) h = (e, rw e at h)
first_unequal_zero c d (inr (inr e)) h = absurd (positive (rw e at h))
  where
    positive : pos 1 ≡ pos 0 → ⊥
    positive h = ground (arith, h)

both_flip :
    (a b x y : ℤ)
    → first_unequal (order_ℤ b a) (order_ℤ y x) ≡ neg (first_unequal (order_ℤ a b) (order_ℤ x y))
both_flip a b x y =
    rw (order_ℤ_flip a b, order_ℤ_flip x y)
      (first_unequal_flip (order_ℤ a b) (order_ℤ x y) (order_ℤ-IsUnit_ℤ a b))

abbrev pub by_parts : Bool → Bool → ℤ → ℤ → ℤ → ℤ → ℤ
by_parts n m a b x y =
    if n && not m
    then negsuc 0
    else if not n && m
    then pos 1
    else if not (eqb_ℤ (order_ℤ a b) (pos 0))
    then order_ℤ a b
    else if n
    then order_ℤ y x
    else order_ℤ x y

pub by_parts_flip : (n m : Bool) (a b x y : ℤ) → by_parts m n b a y x ≡ neg (by_parts n m a b x y)
by_parts_flip true true a b x y = both_flip a b y x
by_parts_flip true false a b x y = refl
by_parts_flip false true a b x y = refl
by_parts_flip false false a b x y = both_flip a b x y

both_zero : (a b x y : ℤ) → first_unequal (order_ℤ a b) (order_ℤ x y) ≡ pos 0 → (a ≡ b) × (x ≡ y)
both_zero a b x y h =
    let z = first_unequal_zero (order_ℤ a b) (order_ℤ x y) (order_ℤ-IsUnit_ℤ a b) h in
    (order_ℤ_zero a b z.0, order_ℤ_zero x y z.1)

by_parts_zero :
    (n m : Bool) (a b x y : ℤ) → by_parts n m a b x y ≡ pos 0 → (n ≡ m) × ((a ≡ b) × (x ≡ y))
by_parts_zero true false a b x y h = absurd (negative h)
  where
    negative : negsuc 0 ≡ pos 0 → ⊥
    negative h = cc h
by_parts_zero false true a b x y h = absurd (positive h)
  where
    positive : pos 1 ≡ pos 0 → ⊥
    positive h = ground (arith, h)
by_parts_zero true true a b x y h = let z = both_zero a b y x h in (refl, (z.0, sym (z.1)))
by_parts_zero false false a b x y h = let z = both_zero a b x y h in (refl, z)

-- decCompareOp for COMPTOTAL, with storage and for extended arithmetic, on two valid finite numbers
-- whose exponents differ by at most 2147483646:
-- the operands in the other order have the opposite result.
pub compare_total_flip :
    (res lhs rhs : DecNumber) (set : DecContext) (status : ℕ)
    → set.extended ≡ true
    → IsFinite lhs
    → IsFinite rhs
    → IsNear lhs rhs
    → signed (compare_op true res rhs lhs set CompareOp.comptotal status).number
      ≡ neg (signed (compare_op true res lhs rhs set CompareOp.comptotal status).number)
compare_total_flip res lhs rhs set status e fl fr near =
    (compare_total-IsSignum res rhs lhs set status e fr fl (near.1, near.0)).total
    ∙ by_parts_flip (is_negative lhs) (is_negative rhs) (amount false lhs (aligned lhs rhs))
        (amount false rhs (aligned rhs lhs)) lhs.exponent rhs.exponent
    ∙ ap neg (sym ((compare_total-IsSignum res lhs rhs set status e fl fr near).total))

same_amount :
    (n m : Bool) (a b : ℕ)
    → n ≡ m
    → (if n then neg_ℕ a else pos a) ≡ (if m then neg_ℕ b else pos b)
    → a ≡ b
same_amount true true a b e h = ground (arith, h)
same_amount false false a b e h = ground (arith, h)
same_amount true false a b e h = cc e
same_amount false true a b e h = cc e

same_value :
    (lhs rhs : DecNumber)
    → lhs.exponent ≡ rhs.exponent
    → aligned lhs rhs ≡ aligned rhs lhs
    → value lhs.lsu ≡ value rhs.lsu
same_value lhs rhs e h =
    let left : aligned lhs rhs ≡ value lhs.lsu = rw e (no_shift (value lhs.lsu) rhs.exponent) in
    let right : aligned rhs lhs ≡ value rhs.lsu = rw e (no_shift (value rhs.lsu) rhs.exponent) in
    sym left ∙ h ∙ right

-- decCompareOp for COMPTOTAL, with storage and for extended arithmetic, on two valid finite numbers
-- whose exponents differ by at most 2147483646:
-- when the result is 0 they have the same sign, the same exponent and the same coefficient.
pub compare_total_zero :
    (res lhs rhs : DecNumber) (set : DecContext) (status : ℕ)
    → set.extended ≡ true
    → IsFinite lhs
    → IsFinite rhs
    → IsNear lhs rhs
    → signed (compare_op true res lhs rhs set CompareOp.comptotal status).number ≡ pos 0
    → (is_negative lhs ≡ is_negative rhs)
      × ((lhs.exponent ≡ rhs.exponent) × (value lhs.lsu ≡ value rhs.lsu))
compare_total_zero res lhs rhs set status e fl fr near h =
    let z =
      by_parts_zero (is_negative lhs) (is_negative rhs) (amount false lhs (aligned lhs rhs))
        (amount false rhs (aligned rhs lhs)) lhs.exponent rhs.exponent
        (sym ((compare_total-IsSignum res lhs rhs set status e fl fr near).total) ∙ h) in
    (
      z.0,
      (
        z.1.1,
        same_value lhs rhs (z.1.1)
            (same_amount (is_negative lhs) (is_negative rhs) _ _ (z.0) (z.1.0)),
      ),
    )
