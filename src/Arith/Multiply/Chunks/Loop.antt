-- ===== src/Arith/Multiply/Chunks/Loop.antt =====
-- The fast path of decMultiplyOp gives the exact product: no 64-bit item wraps.
use cpp_decimal.Base.{ℕ, zero, suc, ◌+◌, ◌-◌, ◌*◌, ◌^◌, ◌≤◌, ◌<◌, ◌≡◌, refl, arith, ap, sym, ◌∙◌}
use cpp_decimal.Base.{
  ltb, List, [], ◌∷◌, length, pow-suc, Bool-cases, inl, inr, replicate, length-replicate,
}
use cpp_decimal.Arith.Multiply.Chunks.{
  add_row_at, assemble, multiply_chunks, multiply_items, resolve, fast_base, fast_lazy,
}
use cpp_decimal.Arith.Multiply.Chunks.Carry.{resolve-IsSettled}
use cpp_decimal.Arith.Multiply.Chunks.Rows.{
  item_value, IsWithin, IsItems, add_row_at-IsAdded, assemble-IsAssembled, unchunk-IsUnchunked,
  partial_max,
}
use cpp_decimal.Arith.Multiply.Units.Laws.{IsProduct}
use cpp_decimal.Units.{value, IsUnits}

-- After `n` rows since the last resolution.
abbrev bound : ℕ → ℕ
bound n = n * partial_max + 99999999

record IsMultiplied (n : ℕ) (acc new : List ℕ) : Type 0 where
  total : item_value new ≡ item_value acc + n
  is_items : IsItems new
  count : length new ≡ length acc

IsWithin-at : (m n : ℕ) (xs : List ℕ) → m ≡ n → IsWithin m xs → IsWithin n xs
IsWithin-at m n xs e h = rw (sym e) h

next_bound : (n : ℕ) → bound n + partial_max ≡ bound (suc n)
next_bound n = omega arith

multiply_items-IsMultiplied :
    (lazy n k : ℕ) (ls : List ℕ) (r : ℕ) (rs acc : List ℕ)
    → lazy + n ≡ fast_lazy
    → 1 ≤ lazy
    → IsItems ls
    → IsItems (r ∷ rs)
    → IsWithin (bound n) acc
    → k + suc (length rs) + length ls ≤ length acc
    → item_value acc + fast_base ^ k * (item_value (r ∷ rs) * item_value ls)
      < fast_base ^ length acc
    → IsMultiplied
        (fast_base ^ k * (item_value (r ∷ rs) * item_value ls))
        acc
        (multiply_items lazy k ls (r ∷ rs) acc)
unfolding multiply_items
multiply_items-IsMultiplied lazy n k ls r [] acc el hl hls hrs ha len fits =
    let row = add_row_at-IsAdded (bound n) k ls r acc hls hrs.0 ha (omega arith) (omega arith) in
    let alone = single r (item_value ls) (fast_base ^ k) in
    let s =
      resolve-IsSettled (bound (suc n)) (add_row_at k ls r acc) (omega arith)
        (IsWithin-at _ (bound (suc n)) (add_row_at k ls r acc) (next_bound n) row.within)
        (rw row.count (omega (arith, row.total, fits, alone))) in
    record {
      total = omega (arith, s.total, row.total, alone);
      is_items = s.is_items;
      count = s.count ∙ row.count;
    }
  where
    single : (r v p : ℕ) → p * (r * v) ≡ p * ((r + fast_base * 0) * v)
    single r v p = grind arith
multiply_items-IsMultiplied lazy n k ls r (t ∷ rs) acc el hl hls hrs ha len fits =
    let row = add_row_at-IsAdded (bound n) k ls r acc hls hrs.0 ha (omega arith) (omega arith) in
    let added = add_row_at k ls r acc in
    let parts =
      split (fast_base ^ k) (fast_base ^ suc k) r (item_value (t ∷ rs)) (item_value ls)
        (pow-suc fast_base k) in
    elim (Bool-cases (ltb 0 (lazy - 1))) [
      | inl delay ↦
          let later =
            multiply_items-IsMultiplied (lazy - 1) (suc n) (suc k) ls t rs added
              (ground (arith, delay)) (ground (arith, delay)) hls hrs.1
              (IsWithin-at _ (bound (suc n)) added (next_bound n) row.within)
              (omega (arith, row.count))
              (rw row.count (room (item_value acc) _ _ fits row.total parts)) in
          rw delay (record {
            total = later.total ∙ join (item_value acc) _ _ row.total parts;
            is_items = later.is_items;
            count = later.count ∙ row.count;
          })
      | inr now ↦
          let s =
            resolve-IsSettled (bound (suc n)) added (ground (arith, now))
              (IsWithin-at _ (bound (suc n)) added (next_bound n) row.within)
              (rw row.count (below (item_value acc) _ _ fits row.total parts)) in
          let later =
            multiply_items-IsMultiplied fast_lazy 0 (suc k) ls t rs (resolve 0 0 0 added) refl
              (omega arith) hls hrs.1 s.is_items (omega (arith, s.count, row.count))
              (rw (s.count, row.count)
                (room (item_value acc) _ _ fits (s.total ∙ row.total) parts)) in
          rw now (record {
            total = later.total ∙ join (item_value acc) _ _ (s.total ∙ row.total) parts;
            is_items = later.is_items;
            count = later.count ∙ s.count ∙ row.count;
          })
    ]
  where
    room : (a p q : ℕ) {w b m : ℕ} → a + w < m → b ≡ a + p → w ≡ p + q → b + q < m
    room a p q h e f = omega (arith, h, e, f)

    below : (a p q : ℕ) {w b m : ℕ} → a + w < m → b ≡ a + p → w ≡ p + q → b < m
    below a p q h e f = omega (arith, h, e, f)

    join : (a p q : ℕ) {w b : ℕ} → b ≡ a + p → w ≡ p + q → b + q ≡ a + w
    join a p q e f = omega (arith, e, f)

    split :
        (p q r s v : ℕ)
        → q ≡ p * fast_base
        → p * ((r + fast_base * s) * v) ≡ p * (r * v) + q * (s * v)
    split p q r s v e = rw e (grind arith)

item_value-lt : (xs : List ℕ) → IsItems xs → item_value xs < fast_base ^ length xs
item_value-lt [] h = omega arith
item_value-lt (x ∷ xs) h = omega (arith, item_value-lt xs h.1, pow-suc fast_base (length xs))

item_value-replicate : (n : ℕ) → item_value (replicate n 0) ≡ 0
item_value-replicate zero = refl
item_value-replicate (suc n) = omega (arith, item_value-replicate n)

IsWithin-replicate : (m n : ℕ) → IsWithin m (replicate n 0)
IsWithin-replicate m zero = tt
IsWithin-replicate m (suc n) = (omega arith, IsWithin-replicate m n)

items_product :
    (ls rs : List ℕ)
    → IsItems ls
    → IsItems rs
    → 1 ≤ length rs
    → IsMultiplied
        (fast_base ^ 0 * (item_value rs * item_value ls))
        (replicate (length ls + length rs) 0)
        (multiply_items fast_lazy 0 ls rs (replicate (length ls + length rs) 0))
items_product ls [] hl hr some = absurd (omega arith)
items_product ls (r ∷ rs) hl hr some =
    let n = length ls + suc (length rs) in
    multiply_items-IsMultiplied fast_lazy 0 0 ls r rs (replicate n 0) refl (omega arith) hl hr
      (IsWithin-replicate (bound 0) n) (omega (arith, length-replicate {A = ℕ} n 0))
      (rw (length-replicate {A = ℕ} n 0, item_value-replicate n)
        (fits (item_value (r ∷ rs)) (item_value ls) _ _ (item_value-lt (r ∷ rs) hr)
          (item_value-lt ls hl) (pow_add (length ls) (suc (length rs)))))
  where
    regroup : (p q : ℕ) → p * fast_base * q ≡ fast_base * (p * q)
    regroup p q = grind arith

    pow_add : (m n : ℕ) → fast_base ^ (m + n) ≡ fast_base ^ m * fast_base ^ n
    pow_add zero n = let none : 0 + n ≡ n = omega arith in rw none (omega arith)
    pow_add (suc m) n =
        let one : suc m + n ≡ suc (m + n) = omega arith in
        rw one (
          omega (
            arith,
            pow-suc fast_base (m + n),
            pow_add m n,
            ap (λ (t : ℕ). t * fast_base ^ n) (pow-suc fast_base m),
            regroup (fast_base ^ m) (fast_base ^ n),
          ))

    smaller : (v w p q : ℕ) → v < q → w < p → 0 + fast_base ^ 0 * (v * w) < p * q
    smaller v w p q h k = grind arith

    fits : (v w p q : ℕ) {t : ℕ} → v < q → w < p → t ≡ p * q → 0 + fast_base ^ 0 * (v * w) < t
    fits v w p q h k e = rw e (smaller v w p q h k)

-- The fast path of decMultiplyOp, on units of any two lengths of which the right one is not empty, where sums are
-- taken modulo 2 ^ 64 and items modulo 2 ^ 32: what comes out is at least one unit, all of two digits, and stands
-- for the exact product.
pub multiply_chunks-IsProduct :
    (lhs rhs : List ℕ)
    → IsUnits lhs
    → IsUnits rhs
    → 1 ≤ length rhs
    → IsProduct (value lhs * value rhs) (multiply_chunks lhs rhs)
unfolding multiply_chunks
multiply_chunks-IsProduct lhs rhs hl hr some =
    let l = assemble-IsAssembled lhs hl in
    let r = assemble-IsAssembled rhs hr in
    let m =
      items_product (assemble lhs) (assemble rhs) l.is_items r.is_items (omega (arith, r.count)) in
    let u = unchunk-IsUnchunked _ m.is_items in
    record {
      total =
          u.total
          ∙ m.total
          ∙ exact (item_value-replicate (length (assemble lhs) + length (assemble rhs))) r.total
              l.total;
      is_units = u.is_units;
      some_units = omega (
        arith,
        u.count,
        m.count,
        length-replicate {A = ℕ} (length (assemble lhs) + length (assemble rhs)) 0,
        r.count,
      );
    }
  where
    exact : {z v w a b : ℕ} → z ≡ 0 → v ≡ b → w ≡ a → z + fast_base ^ 0 * (v * w) ≡ a * b
    exact e f g = rw (e, f, g) (grind arith)
