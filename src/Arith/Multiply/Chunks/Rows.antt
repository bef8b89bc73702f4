-- ===== src/Arith/Multiply/Chunks/Rows.antt =====
-- Chunked copies, and the partial products in 64 bits.
use cpp_decimal.Base.{ℕ, zero, suc, ◌+◌, ◌*◌, ◌/◌, ◌%◌, ◌^◌, ◌≤◌, ◌<◌, ◌≡◌, refl, arith, ap}
use cpp_decimal.Base.{List, [], ◌∷◌, length, pow-suc}
use cpp_decimal.Arith.Multiply.Chunks.{add_row, add_row_at, assemble, unchunk, fast_base}
use cpp_decimal.Units.{value, IsUnits}

-- The number that items of eight digits stand for.
abbrev pub item_value : List ℕ → ℕ
item_value [] = 0
item_value (x ∷ xs) = x + fast_base * item_value xs

-- No item is above `m`.
abbrev pub IsWithin : ℕ → List ℕ → Type 0
IsWithin m [] = Unit {0}
IsWithin m (x ∷ xs) = (x ≤ m) × IsWithin m xs

-- Items of eight digits.
abbrev pub IsItems : List ℕ → Type 0
IsItems xs = IsWithin 99999999 xs

pub record IsAssembled (us items : List ℕ) : Type 0 where
  pub total : item_value items ≡ value us
  pub is_items : IsItems items
  pub count : length items ≡ (length us + 3) / 4

pub assemble-IsAssembled : (us : List ℕ) → IsUnits us → IsAssembled us (assemble us)
unfolding assemble
assemble-IsAssembled [] h = record { total = refl; is_items = tt; count = refl }
assemble-IsAssembled (a ∷ []) h = record {
  total = omega arith;
  is_items = (omega arith, tt);
  count = refl;
}
assemble-IsAssembled (a ∷ b ∷ []) h = record {
  total = omega arith;
  is_items = (omega arith, tt);
  count = refl;
}
assemble-IsAssembled (a ∷ b ∷ c ∷ []) h = record {
  total = omega arith;
  is_items = (omega arith, tt);
  count = refl;
}
assemble-IsAssembled (a ∷ b ∷ c ∷ d ∷ us) h =
    let rest = assemble-IsAssembled us h.1.1.1.1 in
    record {
      total = omega (arith, rest.total);
      is_items = (omega arith, rest.is_items);
      count = omega (arith, rest.count);
    }

pub record IsUnchunked (items us : List ℕ) : Type 0 where
  pub total : value us ≡ item_value items
  pub is_units : IsUnits us
  pub count : length us ≡ 4 * length items

pub unchunk-IsUnchunked : (items : List ℕ) → IsItems items → IsUnchunked items (unchunk items)
unfolding unchunk
unchunk-IsUnchunked [] h = record { total = refl; is_units = tt; count = refl }
unchunk-IsUnchunked (x ∷ xs) h =
    let rest = unchunk-IsUnchunked xs h.1 in
    record {
      total = omega (arith, rest.total);
      is_units = (omega arith, (omega arith, (omega arith, (omega arith, rest.is_units))));
      count = omega (arith, rest.count);
    }

-- The largest partial product, (10 ^ 8 - 1) ^ 2.
abbrev pub partial_max : ℕ
partial_max = 9999999800000001

product_le : (a b c : ℕ) → a ≤ c → b ≤ c → a * b ≤ c * c
product_le a b c h k = grind arith

partial_le : (a b : ℕ) → a ≤ 99999999 → b ≤ 99999999 → a * b ≤ partial_max
partial_le a b h k = omega (arith, product_le a b 99999999 h k)

weaken : (m n : ℕ) (xs : List ℕ) → m ≤ n → IsWithin m xs → IsWithin n xs
weaken m n [] h w = tt
weaken m n (x ∷ xs) h w = (omega arith, weaken m n xs h w.1)

-- `new` is `acc` with `n` added, and its items grew by a partial product each at most.
pub record IsAdded (n m : ℕ) (acc new : List ℕ) : Type 0 where
  pub total : item_value new ≡ item_value acc + n
  pub within : IsWithin (m + partial_max) new
  pub count : length new ≡ length acc

add_row-IsAdded :
    (m : ℕ) (ls : List ℕ) (r : ℕ) (acc : List ℕ)
    → IsItems ls
    → r ≤ 99999999
    → IsWithin m acc
    → m + partial_max < 2 ^ 64
    → length ls ≤ length acc
    → IsAdded (r * item_value ls) m acc (add_row ls r acc)
unfolding add_row
add_row-IsAdded m [] r acc hl hr ha small len = record {
  total = nothing (item_value acc) r;
  within = weaken m (m + partial_max) acc (omega arith) ha;
  count = refl;
}
  where
    nothing : (a r : ℕ) → a ≡ a + r * 0
    nothing a r = grind arith
add_row-IsAdded m (l ∷ ls) r [] hl hr ha small len = absurd (omega arith)
add_row-IsAdded m (l ∷ ls) r (a ∷ acc) hl hr ha small len =
    let rest = add_row-IsAdded m ls r acc hl.1 hr ha.1 small (omega arith) in
    let p = partial_le l r hl.0 hr in
    record {
      total = step l r a (item_value ls) (item_value acc) p (omega arith) rest.total;
      within = (omega (arith, p), rest.within);
      count = omega (arith, rest.count);
    }
  where
    regroup : (l r v : ℕ) → r * (l + fast_base * v) ≡ l * r + fast_base * (r * v)
    regroup l r v = grind arith

    step :
        (l r a v w : ℕ) {n : ℕ}
        → l * r ≤ partial_max
        → a + partial_max < 2 ^ 64
        → n ≡ w + r * v
        → (a + l * r % 2 ^ 64) % 2 ^ 64 + fast_base * n
          ≡ a + fast_base * w + r * (l + fast_base * v)
    step l r a v w h k e = omega (arith, h, k, e, regroup l r v)

pub add_row_at-IsAdded :
    (m k : ℕ) (ls : List ℕ) (r : ℕ) (acc : List ℕ)
    → IsItems ls
    → r ≤ 99999999
    → IsWithin m acc
    → m + partial_max < 2 ^ 64
    → k + length ls ≤ length acc
    → IsAdded (fast_base ^ k * (r * item_value ls)) m acc (add_row_at k ls r acc)
unfolding add_row_at
add_row_at-IsAdded m zero ls r acc hl hr ha small len =
    let row = add_row-IsAdded m ls r acc hl hr ha small (omega arith) in
    record { total = omega (arith, row.total); within = row.within; count = row.count }
add_row_at-IsAdded m (suc k) ls r [] hl hr ha small len = absurd (omega arith)
add_row_at-IsAdded m (suc k) ls r (a ∷ acc) hl hr ha small len =
    let rest = add_row_at-IsAdded m k ls r acc hl hr ha.1 small (omega arith) in
    record {
      total = omega (
        arith,
        rest.total,
        ap (λ (t : ℕ). t * (r * item_value ls)) (pow-suc fast_base k),
        regroup (fast_base ^ k) (r * item_value ls),
      );
      within = (omega arith, rest.within);
      count = omega (arith, rest.count);
    }
  where
    regroup : (p n : ℕ) → p * fast_base * n ≡ fast_base * (p * n)
    regroup p n = grind arith
