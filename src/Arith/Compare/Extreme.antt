-- ===== src/Arith/Compare/Extreme.antt =====
-- The maximum and the minimum of two finite numbers are one of them.
use cpp_decimal.Base.{ℕ, ◌≤◌, ◌<◌, ◌≡◌, ◌≢◌, ◌⊎◌, inl, inr, refl, arith, ◌∙◌}
use cpp_decimal.Base.{Bool, true, false, not, ◌&&◌, if◌then◌else◌}
use cpp_decimal.Base.Int.{ℤ, pos, negsuc, neg, neg_ℕ, ◌-ℤ◌, ltb_ℤ, eqb_ℤ}
use cpp_decimal.Arith.Compare.{CompareOp, is_magnitude, is_signum, compare_op, settle_verdict}
use cpp_decimal.Context.{DecContext}
use cpp_decimal.Number.{DecNumber, is_negative}
use cpp_decimal.Number.Compare.Laws.{IsFinite, IsNear, amount, aligned, order_ℤ}
use cpp_decimal.Base.{Bool-cases}
use cpp_decimal.Arith.Compare.{choose, break_tie, is_min}
use cpp_decimal.Arith.Compare.Laws.{
  IsUnit_ℤ, compared, compare_op-finite, compared-IsUnit_ℤ, finite_ordered,
}
use cpp_decimal.Arith.Compare.Total.{
  total_order, first_unequal, by_parts, first_unequal_flip, by_parts_flip, order_ℤ_flip,
}
use cpp_decimal.Base.Int.{◌≤ℤ◌, ◌+ℤ◌}
use cpp_decimal.Round.Finalize.{finish}
use cpp_decimal.Round.Coeff.{copy_fit}
use cpp_decimal.Round.Coeff.Partial.{copy_fit_short}
use cpp_decimal.Round.Finalize.Laws.{finish_keeps}

-- A finite number that a context of precision `p` holds as it is.
pub record IsHeld (dn : DecNumber) (set : DecContext) (p : ℕ) : Type 0 where
  pub finite : IsFinite dn
  pub short : dn.digits ≤ p
  pub above : set.emin ≤ℤ dn.exponent
  pub below : dn.exponent ≤ℤ set.emax -ℤ set.digits +ℤ pos 1

-- The chosen number goes to the result unchanged.
kept :
    (res dn : DecNumber) (set : DecContext) (status p : ℕ)
    → set.digits ≡ pos p
    → set.extended ≡ true
    → IsHeld dn set p
    → (let fit = copy_fit res dn set (pos 0) status in
        finish true fit.number set fit.residue fit.status)
      ≡ record { number = dn; status = status }
kept res dn set status p e ext h =
    rw (copy_fit_short res dn set status p e h.short h.finite.coefficient) (
      finish_keeps dn set status ext
        (room set.emin dn.exponent dn.digits h.above h.finite.coefficient.some_digit) h.below)
  where
    room : (m e : ℤ) (n : ℕ) → m ≤ℤ e → 0 < n → m -ℤ pos n +ℤ pos 1 ≤ℤ e
    room m e n h k = ground (arith, h, k)

-- The rank of two numbers: by the value, or by the magnitude, and then by the total order.
abbrev pub rank : CompareOp → DecNumber → DecNumber → ℤ
rank op lhs rhs = first_unequal (compared op lhs rhs) (total_order lhs rhs)

-- Numbers that compare as equal, and have the same sign, have the same amount.
same_amounts :
    (abs n m : Bool) (a b : ℕ)
    → order_ℤ
        (if abs then pos a else if n then neg_ℕ a else pos a)
        (if abs then pos b else if m then neg_ℕ b else pos b)
      ≡ pos 0
    → n ≡ m
    → order_ℤ (if n then neg_ℕ a else pos a) (if m then neg_ℕ b else pos b) ≡ pos 0
same_amounts false n m a b h e = h
same_amounts true true false a b h e = cc e
same_amounts true false true a b h e = cc e
same_amounts true false false a b h e = h
same_amounts true true true a b h e = ground (arith, h)

abbrev tie : Bool → Bool → ℤ → ℤ → ℤ
tie n m x y =
    if n
    then (if not m then negsuc 0 else if ltb_ℤ x y then pos 1 else negsuc 0)
    else if m
    then pos 1
    else if ltb_ℤ y x
    then pos 1
    else negsuc 0

-- `t` is 1 or -1, and the rank `r` is not on the other side of 0.
abbrev IsSide : ℤ → ℤ → Type 0
IsSide t r = ((t ≡ pos 1) × (pos 0 ≤ℤ r)) ⊎ ((t ≡ negsuc 0) × (r ≤ℤ pos 0))

below-IsSide : (x y : ℤ) → IsSide (if ltb_ℤ x y then pos 1 else negsuc 0) (order_ℤ y x)
below-IsSide x y = elim (Bool-cases (ltb_ℤ x y)) [
  | inl e ↦ rw e (inl (refl, ground (arith, e)))
  | inr e ↦ rw e (inr (refl, ground (arith, e)))
]

tie_lem :
    (n m : Bool) (a b x y : ℤ)
    → (n ≡ m → order_ℤ a b ≡ pos 0)
    → IsSide (tie n m x y) (by_parts n m a b x y)
tie_lem true false a b x y h = inr (refl, ground arith)
tie_lem false true a b x y h = inl (refl, ground arith)
tie_lem true true a b x y h = rw (h refl) (below-IsSide x y)
tie_lem false false a b x y h = rw (h refl) (below-IsSide y x)

break_tie_lem :
    (lhs rhs : DecNumber) (op : CompareOp)
    → compared op lhs rhs ≡ pos 0
    → IsSide (break_tie lhs rhs) (total_order lhs rhs)
unfolding break_tie
break_tie_lem lhs rhs op h =
    tie_lem (is_negative lhs) (is_negative rhs) (amount false lhs (aligned lhs rhs))
      (amount false rhs (aligned rhs lhs)) lhs.exponent rhs.exponent
      (same_amounts (is_magnitude op) (is_negative lhs) (is_negative rhs) (aligned lhs rhs)
        (aligned rhs lhs) h)

first-IsSide :
    (c t r : ℤ)
    → IsUnit_ℤ c
    → (c ≡ pos 0 → IsSide t r)
    → IsSide (first_unequal c t) (first_unequal c r)
first-IsSide c t r (inl e) h = rw e (inr (refl, ground arith))
first-IsSide c t r (inr (inl e)) h = rw e (h e)
first-IsSide c t r (inr (inr e)) h = rw e (inl (refl, ground arith))

rank_flip : (op : CompareOp) (lhs rhs : DecNumber) → rank op rhs lhs ≡ neg (rank op lhs rhs)
rank_flip op lhs rhs =
    let a = amount (is_magnitude op) lhs (aligned lhs rhs) in
    let b = amount (is_magnitude op) rhs (aligned rhs lhs) in
    rw
      (
        order_ℤ_flip a b,
        by_parts_flip (is_negative lhs) (is_negative rhs) (amount false lhs (aligned lhs rhs))
            (amount false rhs (aligned rhs lhs)) lhs.exponent rhs.exponent,
      )
      (first_unequal_flip (compared op lhs rhs) (total_order lhs rhs)
        (compared-IsUnit_ℤ op lhs rhs))

-- `dn` is the extreme of `dn` and `other`.
abbrev pub IsExtreme : CompareOp → DecNumber → DecNumber → Type 0
IsExtreme op dn other = if is_min op then rank op dn other ≤ℤ pos 0 else pos 0 ≤ℤ rank op dn other

neg_below : (r r' : ℤ) → pos 0 ≤ℤ r → r' ≡ neg r → r' ≤ℤ pos 0
neg_below r r' h e = rw e (ground (arith, h))

neg_above : (r r' : ℤ) → r ≤ℤ pos 0 → r' ≡ neg r → pos 0 ≤ℤ r'
neg_above r r' h e = rw e (ground (arith, h))

-- The choice by the sign `t`.
by_side :
    (lhs rhs : DecNumber) (t r r' : ℤ) (reversed : Bool)
    → IsSide t r
    → r' ≡ neg r
    → (let dn = if ltb_ℤ (pos 0) (if reversed then neg t else t) then lhs else rhs in
        ((dn ≡ lhs) × (if reversed then r ≤ℤ pos 0 else pos 0 ≤ℤ r))
        ⊎ ((dn ≡ rhs) × (if reversed then r' ≤ℤ pos 0 else pos 0 ≤ℤ r')))
by_side lhs rhs t r r' true (inl (e, h)) f = rw e (inr (refl, neg_below r r' h f))
by_side lhs rhs t r r' true (inr (e, h)) f = rw e (inl (refl, h))
by_side lhs rhs t r r' false (inl (e, h)) f = rw e (inl (refl, h))
by_side lhs rhs t r r' false (inr (e, h)) f = rw e (inr (refl, neg_above r r' h f))

choose_lem :
    (op : CompareOp) (lhs rhs : DecNumber)
    → (let dn = choose true op lhs rhs (compared op lhs rhs) in
        ((dn ≡ lhs) × IsExtreme op lhs rhs) ⊎ ((dn ≡ rhs) × IsExtreme op rhs lhs))
unfolding choose
choose_lem op lhs rhs =
    let c = compared op lhs rhs in
    rw (always (is_min op) (eqb_ℤ c (pos 0))) (
      by_side lhs rhs (first_unequal c (break_tie lhs rhs)) (rank op lhs rhs) (rank op rhs lhs)
        (is_min op)
        (first-IsSide c (break_tie lhs rhs) (total_order lhs rhs) (compared-IsUnit_ℤ op lhs rhs)
          (break_tie_lem lhs rhs op))
        (rank_flip op lhs rhs))
  where
    always : (a b : Bool) → (a && not (b && not true)) ≡ a
    always true true = refl
    always true false = refl
    always false b = refl

-- The exponents that a context holds are near where its range fits an Int.
held_near :
    (x y m n g : ℤ) (p : ℕ)
    → g ≡ pos p
    → 0 < p
    → x ≤ℤ m -ℤ g +ℤ pos 1
    → n ≤ℤ y
    → m -ℤ n ≤ℤ pos 2147483646
    → x -ℤ y ≤ℤ pos 2147483646
held_near x y m n g p e some hi lo range = differ x y m n (below x m p some (rw e at hi)) lo range
  where
    below : (x m : ℤ) (p : ℕ) → 0 < p → x ≤ℤ m -ℤ pos p +ℤ pos 1 → x ≤ℤ m
    below x m p some hi = ground (arith, some, hi)

    differ : (x y m n : ℤ) → x ≤ℤ m → n ≤ℤ y → m -ℤ n ≤ℤ pos 2147483646 → x -ℤ y ≤ℤ pos 2147483646
    differ x y m n h k r = ground (arith, h, k, r)

IsHeld-IsNear :
    (lhs rhs : DecNumber) (set : DecContext) (p : ℕ)
    → set.digits ≡ pos p
    → set.emax -ℤ set.emin ≤ℤ pos 2147483646
    → IsHeld lhs set p
    → IsHeld rhs set p
    → IsNear lhs rhs
IsHeld-IsNear lhs rhs set p e range l r =
    let some : 0 < p = omega (arith, l.short, l.finite.coefficient.some_digit) in
    (
      held_near lhs.exponent rhs.exponent set.emax set.emin set.digits p e some l.below r.above
          range,
      held_near rhs.exponent lhs.exponent set.emax set.emin set.digits p e some r.below l.above
          range,
    )

-- decCompareOp for COMPMAX, COMPMIN, COMPMAXMAG and COMPMINMAG, with storage and for extended
-- arithmetic, in a context whose exponent range, emax less emin, is at most 2147483646, on two valid finite
-- numbers that the context holds: the result is one of the two unchanged,
-- no status bit is added, and the other one is not beyond it: not above it for a maximum and not below it
-- for a minimum, by the value, or by the magnitude for the MAG operations, and then by the total order.
pub compare_op-IsExtreme :
    (res lhs rhs : DecNumber) (set : DecContext) (op : CompareOp) (status p : ℕ)
    → set.digits ≡ pos p
    → set.extended ≡ true
    → set.emax -ℤ set.emin ≤ℤ pos 2147483646
    → IsHeld lhs set p
    → IsHeld rhs set p
    → is_signum op ≡ false
    → ((compare_op true res lhs rhs set op status ≡ record { number = lhs; status = status })
        × IsExtreme op lhs rhs)
      ⊎ ((compare_op true res lhs rhs set op status ≡ record { number = rhs; status = status })
          × IsExtreme op rhs lhs)
unfolding settle_verdict
compare_op-IsExtreme res lhs rhs set op status p e ext range hl hr no_signum =
    by_choice (choose_lem op lhs rhs)
  where
    not_total : (op : CompareOp) → is_signum op ≡ false → op ≢ CompareOp.comptotal
    not_total op h k = cc (rw k at h)

    settled :
        (dn : DecNumber)
        → IsHeld dn set p
        → choose true op lhs rhs (compared op lhs rhs) ≡ dn
        → compare_op true res lhs rhs set op status ≡ record { number = dn; status = status }
    settled dn h chosen =
        compare_op-finite res lhs rhs set op status (compared op lhs rhs) ext (
          finite_ordered lhs rhs set op status hl.finite hr.finite
            (IsHeld-IsNear lhs rhs set p e range hl hr) (not_total op no_signum))
        ∙ rw no_signum (simp ext (rw chosen (kept res dn set status p e ext h)))

    by_choice :
        (let dn = choose true op lhs rhs (compared op lhs rhs) in
          ((dn ≡ lhs) × IsExtreme op lhs rhs) ⊎ ((dn ≡ rhs) × IsExtreme op rhs lhs))
        → ((compare_op true res lhs rhs set op status ≡ record { number = lhs; status = status })
            × IsExtreme op lhs rhs)
          ⊎ ((compare_op true res lhs rhs set op status ≡ record { number = rhs; status = status })
              × IsExtreme op rhs lhs)
    by_choice (inl (c, h)) = inl (settled lhs hl c, h)
    by_choice (inr (c, h)) = inr (settled rhs hr c, h)
