-- ===== src/Units/AddSub/Whole.antt =====
-- decUnitAddSub: the whole routine, from its loops and its end.
use cpp_decimal.Base.{ℕ, zero, suc, ◌+◌, ◌-◌, ◌*◌, ◌^◌, ◌≤◌, ◌<◌, ◌≡◌, refl, arith, ap, max}
use cpp_decimal.Base.{true, false, List, [], ◌∷◌, ◌++◌, length, pow-suc, length-append}
use cpp_decimal.Base.{if◌then◌else◌, Bool-cases, inl, inr, leb, ◌==◌, leb→le, leb→lt}
use cpp_decimal.Base.Int.{ℤ, pos, negsuc, pos_part, neg_part, ◌+ℤ◌, ◌-ℤ◌, ◌*ℤ◌, neg_ℕ}
use native.Mathlib.Decide.{dec_lt}
use cpp_decimal.Units.{u8, value, IsUnits, value-lt}
use cpp_decimal.Units.AddSub.{Sum, emit, add_loop, add_shifted, complement}
use cpp_decimal.Units.AddSub.{Result, finish, unit_add_sub}
use cpp_decimal.Units.AddSub.Loops.{IsSmall, IsSum, add_loop-IsSum}

copy-IsSum :
    (x p q : ℕ) (rest : Sum)
    → x < 100
    → IsSum (pos 0) p q rest
    → IsSum (pos 0) (x + 100 * p) (100 * q) (emit x rest)
unfolding emit
copy-IsSum x p q rest hx h = record {
  units = (hx, h.units);
  small = h.small;
  total = omega (
    arith,
    h.total,
    ap (λ (n : ℕ). n * pos_part rest.carry) (pow-suc 100 (length rest.units)),
    ap (λ (n : ℕ). n * neg_part rest.carry) (pow-suc 100 (length rest.units)),
  );
}

again : (p q p' q' : ℕ) (s : Sum) → p ≡ p' → q ≡ q' → IsSum (pos 0) p q s → IsSum (pos 0) p' q' s
again p q p' q' s e f h = rw (← e, ← f) h

shift-suc : (n k v : ℕ) → n * (100 ^ suc k * v) ≡ 100 * (n * (100 ^ k * v))
shift-suc n k v = omega (arith, ap (λ (t : ℕ). n * (t * v)) (pow-suc 100 k))

module _ (m : ℤ) (small : IsSmall m) where
  add_shifted-IsSum :
      (k : ℕ) (a b : List ℕ)
      → IsUnits a
      → IsUnits b
      → IsSum
          (pos 0)
          (value a + pos_part m * (100 ^ k * value b))
          (neg_part m * (100 ^ k * value b))
          (add_shifted m k a b)
  unfolding add_shifted
  add_shifted-IsSum zero a b ha hb =
      again _ _ _ _ _ (omega arith) (omega arith)
        (add_loop-IsSum m small a b (pos 0) ha hb (omega arith))
  add_shifted-IsSum (suc k) [] b ha hb =
      again _ _ _ _ _ (omega (arith, shift-suc (pos_part m) k (value b)))
        (omega (arith, shift-suc (neg_part m) k (value b)))
        (copy-IsSum 0 _ _ _ (omega arith) (add_shifted-IsSum k [] b tt hb))
  add_shifted-IsSum (suc k) (x ∷ a) b ha hb =
      again _ _ _ _ _ (omega (arith, shift-suc (pos_part m) k (value b)))
        (omega (arith, shift-suc (neg_part m) k (value b)))
        (copy-IsSum x _ _ _ ha.0 (add_shifted-IsSum k a b ha.1 hb))

-- The complement of `us` to 100 ^ n, with `add` put in at the low end.
record IsComplement (us : List ℕ) (add : ℕ) (r : List ℕ × ℕ) : Type 0 where
  units : IsUnits r.0
  bit : r.1 ≤ 1
  same_length : length r.0 ≡ length us
  total : value r.0 + 100 ^ length us * r.1 + value us + 1 ≡ 100 ^ length us + add

complement-IsComplement :
    (us : List ℕ) (add : ℕ) → IsUnits us → add ≤ 1 → IsComplement us add (complement us add)
unfolding complement
complement-IsComplement [] add hu h = record {
  units = tt;
  bit = h;
  same_length = refl;
  total = omega arith;
}
complement-IsComplement (u ∷ us) add hu h = elim (Bool-cases (leb (99 + add - u) 99)) [
  | inl fits ↦
      let rest = complement-IsComplement us 0 hu.1 (omega arith) in
      rw fits (record {
        units = (omega (arith, leb→le _ _ fits), rest.units);
        bit = rest.bit;
        same_length = ap suc rest.same_length;
        total = omega (
          arith,
          rest.total,
          leb→le _ _ fits,
          pow-suc 100 (length us),
          ap (λ (n : ℕ). n * (complement us 0).1) (pow-suc 100 (length us)),
        );
      })
  | inr over ↦
      let rest = complement-IsComplement us 1 hu.1 (omega arith) in
      rw over (record {
        units = (omega arith, rest.units);
        bit = rest.bit;
        same_length = ap suc rest.same_length;
        total = omega (
          arith,
          rest.total,
          leb→lt _ _ over,
          pow-suc 100 (length us),
          ap (λ (n : ℕ). n * (complement us 1).1) (pow-suc 100 (length us)),
        );
      })
]

-- The number that a result stands for.
abbrev pub signed_value : Result → ℤ
signed_value r = if r.negative then neg_ℕ (value r.units) else pos (value r.units)

value-append : (us : List ℕ) (u : ℕ) → value (us ++ u ∷ []) ≡ value us + 100 ^ length us * u
value-append [] u = omega arith
value-append (x ∷ us) u =
    omega (arith, value-append us u, ap (λ (n : ℕ). n * u) (pow-suc 100 (length us)))

IsUnits-append : (us : List ℕ) (u : ℕ) → IsUnits us → u < 100 → IsUnits (us ++ u ∷ [])
IsUnits-append [] u h hu = (hu, tt)
IsUnits-append (x ∷ us) u h hu = (h.0, IsUnits-append us u h.1 hu)

-- `finish` gives the number that the loops have described.
record IsFinished (plus minus : ℕ) (r : Result) : Type 0 where
  units : IsUnits r.units
  total : signed_value r +ℤ pos minus ≡ pos plus
  signed : r.negative ≡ true → 0 < value r.units

negated : (v plus minus : ℕ) → minus ≡ plus + v → neg_ℕ v +ℤ pos minus ≡ pos plus
negated v plus minus e = ground arith

-- The number left by a borrow of `n` + 1: the complement, with a new top unit.
borrowed :
    (us : List ℕ) (n : ℕ)
    → IsUnits us
    → n ≤ 98
    → let k = complement us 1 in
      value (k.0 ++ u8 (k.1 + n) ∷ []) + value us ≡ 100 ^ length us * suc n
borrowed us n hu hn =
    let k = complement-IsComplement us 1 hu (omega arith) in
    let top : u8 ((complement us 1).1 + n) ≡ (complement us 1).1 + n = omega (arith, k.bit) in
    rw (top, value-append (complement us 1).0, k.same_length) (omega (arith, k.total))

-- A borrow of `n` + 1: the complement, with a new unit only where that is not 0.
finish_borrow :
    (plus minus n : ℕ) (us : List ℕ)
    → IsUnits us
    → n ≤ 98
    → value us + minus ≡ plus + 100 ^ length us * suc n
    → IsFinished plus minus (finish us (negsuc n))
finish_borrow plus minus n us hu hn e =
    let k = complement-IsComplement us 1 hu (omega arith) in
    let below = value-lt us hu in
    let top : pos_part (pos (complement us 1).1 -ℤ negsuc n -ℤ pos 1) ≡ (complement us 1).1 + n =
      ground arith in
    unfold finish in
    rw top (elim (dec_lt 0 ((complement us 1).1 + n)) [
      | no none_left ↦ rw (eq_zero _ none_left) (record {
        units = k.units;
        total = negated _ plus minus (omega (arith, whole us _ n none_left, k.total));
        signed = λ _. omega (arith, whole us _ n none_left, k.total);
      })
      | yes some_left ↦ rw (ne_zero _ some_left) (record {
        units = IsUnits-append _ _ k.units (omega (arith, k.bit));
        total = negated _ plus minus (omega (arith, borrowed us n hu hn));
        signed = λ _. omega (arith, borrowed us n hu hn);
      })
    ])
  where
    eq_zero : (t : ℕ) → ¬ (0 < t) → (t == 0) ≡ true
    eq_zero t h = ground arith

    ne_zero : (t : ℕ) → 0 < t → (t == 0) ≡ false
    ne_zero t h = ground arith

    whole :
        (us : List ℕ) (add n : ℕ)
        → ¬ (0 < add + n)
        → 100 ^ length us * add + 100 ^ length us * n ≡ 0
    whole us add n h =
        let none : add + n ≡ 0 = omega arith in
        omega (arith, ap (λ (t : ℕ). 100 ^ length us * t) none)

finish-IsFinished :
    (plus minus : ℕ) (us : List ℕ) (c : ℤ)
    → IsUnits us
    → IsSmall c
    → value us + 100 ^ length us * pos_part c + 0 + minus ≡ 0 + plus + 100 ^ length us * neg_part c
    → IsFinished plus minus (finish us c)
finish-IsFinished plus minus us (pos zero) hu hc e =
    unfold finish in record { units = hu; total = ground arith; signed = λ n. ground arith }
finish-IsFinished plus minus us (pos (suc n)) hu hc e =
    unfold finish in
    record {
      units = IsUnits-append us _ hu (omega arith);
      total = ground (arith, value-append us (suc n));
      signed = λ n. ground arith;
    }
finish-IsFinished plus minus us (negsuc n) hu hc e =
    finish_borrow plus minus n us hu (omega arith) (omega arith)

-- The length of what the loops write.
length-add_loop :
    (m : ℤ) (a b : List ℕ) (c : ℤ) → length (add_loop m a b c).units ≡ max (length a) (length b)
unfolding add_loop emit
length-add_loop m [] [] c = refl
length-add_loop m (x ∷ a) (y ∷ b) c = omega (arith, length-add_loop m a b _)
length-add_loop m (x ∷ a) [] c = omega (arith, length-add_loop m a [] _)
length-add_loop m [] (y ∷ b) c = omega (arith, length-add_loop m [] b _)

length-add_shifted :
    (m : ℤ) (k : ℕ) (a b : List ℕ)
    → length (add_shifted m k a b).units ≡ max (length a) (k + length b)
unfolding add_shifted emit
length-add_shifted m zero a b = omega (arith, length-add_loop m a b (pos 0))
length-add_shifted m (suc k) [] b = omega (arith, length-add_shifted m k [] b)
length-add_shifted m (suc k) (x ∷ a) b = omega (arith, length-add_shifted m k a b)

length-complement : (us : List ℕ) (add : ℕ) → length (complement us add).0 ≡ length us
unfolding complement
length-complement [] add = refl
length-complement (u ∷ us) add = ap suc (length-complement us _)

length-finish :
    (us : List ℕ) (c : ℤ)
    → (length us ≤ length (finish us c).units) × (length (finish us c).units ≤ length us + 1)
unfolding finish
length-finish us (pos zero) = omega arith
length-finish us (pos (suc n)) = omega (arith, length-append us (u8 (suc n) ∷ []))
length-finish us (negsuc n) = ground (
  arith,
  length-complement us 1,
  length-append (complement us 1).0
      (u8 (pos_part (pos (complement us 1).1 -ℤ negsuc n -ℤ pos 1)) ∷ []),
)

isolate :
    (x m : ℤ) (va vb : ℕ)
    → x +ℤ pos (neg_part m * vb) ≡ pos (va + pos_part m * vb)
    → x ≡ pos va +ℤ m *ℤ pos vb
isolate x (pos k) va vb e = ground arith
isolate x (negsuc k) va vb e = ground arith

-- decUnitAddSub: for a multiplier of two digits, the signed result is A + M * B * 100 ^ shift, in
-- units of two digits; a negative result is not 0; and the count of units is that of the longer
-- operand, or one more.
pub unit_add_sub_lem :
    (a b : List ℕ) (k : ℕ) (m : ℤ)
    → IsUnits a
    → IsUnits b
    → IsSmall m
    → let r = unit_add_sub a b k m in
      (signed_value r ≡ pos (value a) +ℤ m *ℤ pos (100 ^ k * value b))
      × IsUnits r.units
      × (r.negative ≡ true → 0 < value r.units)
      × (max (length a) (k + length b) ≤ length r.units)
      × (length r.units ≤ max (length a) (k + length b) + 1)
unfolding unit_add_sub
unit_add_sub_lem a b k m ha hb hm =
    let s = add_shifted-IsSum m hm k a b ha hb in
    let sum = add_shifted m k a b in
    let f = finish-IsFinished _ _ sum.units sum.carry s.units s.small s.total in
    let n = length-finish sum.units sum.carry in
    (
      isolate _ m (value a) (100 ^ k * value b) f.total,
      f.units,
      f.signed,
      omega (arith, n, length-add_shifted m k a b),
      omega (arith, n, length-add_shifted m k a b),
    )
