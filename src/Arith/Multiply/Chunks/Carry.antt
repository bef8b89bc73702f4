-- ===== src/Arith/Multiply/Chunks/Carry.antt =====
-- The carries of the 64-bit accumulator.
use cpp_decimal.Base.{ℕ, zero, suc, ◌+◌, ◌*◌, ◌%◌, ◌^◌, ◌≤◌, ◌<◌, ◌≡◌, refl, arith, ap}
use cpp_decimal.Base.{List, [], ◌∷◌, length, pow-suc}
use cpp_decimal.Arith.Multiply.Chunks.{Resolved, resolve, resolve_item, fast_base}
use cpp_decimal.Arith.Multiply.Chunks.Rows.{item_value, IsWithin, IsItems}

-- The parts of an item.
record IsResolvedItem (item : ℕ) (r : Resolved) : Type 0 where
  total : r.low + fast_base * r.carry + fast_base * fast_base * r.carry2 ≡ item
  low_lt : r.low < fast_base
  carry_lt : r.carry < fast_base
  carry2_le : r.carry2 ≤ 1844

resolve_item-IsResolvedItem : (item : ℕ) → item < 2 ^ 64 → IsResolvedItem item (resolve_item item)
unfolding resolve_item
resolve_item-IsResolvedItem item h = record {
  total = ground arith;
  low_lt = ground arith;
  carry_lt = ground arith;
  carry2_le = ground arith;
}

-- What is lost over the top is `lost`.
pub record IsSpun (n : ℕ) (acc new : List ℕ) : Type 0 where
  pub lost : ℕ
  pub total : item_value new + fast_base ^ length acc * lost ≡ item_value acc + n
  pub is_items : IsItems new
  pub count : length new ≡ length acc

resolve-IsSpun :
    (m older carry carry2 : ℕ) (acc : List ℕ)
    → m + 1844 + fast_base < 2 ^ 64
    → older ≤ 1844
    → carry < fast_base
    → carry2 ≤ 1844
    → IsWithin m acc
    → IsSpun (older + carry + fast_base * carry2) acc (resolve older carry carry2 acc)
unfolding resolve
resolve-IsSpun m older carry carry2 [] small ho hc h2 ha = record {
  lost = older + carry + fast_base * carry2;
  total = omega arith;
  is_items = tt;
  count = refl;
}
resolve-IsSpun m older carry carry2 (a ∷ acc) small ho hc h2 ha =
    let item = (((a + older) % 2 ^ 64) + carry) % 2 ^ 64 in
    let whole : item ≡ a + older + carry = omega (arith, ha.0) in
    let r = resolve_item-IsResolvedItem item (omega arith) in
    let rest =
      resolve-IsSpun m carry2 (resolve_item item).carry (resolve_item item).carry2 acc small h2
        r.carry_lt r.carry2_le ha.1 in
    record {
      lost = rest.lost;
      total = omega (
        arith,
        whole,
        r.total,
        rest.total,
        ap (λ (t : ℕ). t * rest.lost) (pow-suc fast_base (length acc)),
        regroup (fast_base ^ length acc) rest.lost,
      );
      is_items = (omega (arith, r.low_lt), rest.is_items);
      count = omega (arith, rest.count);
    }
  where
    regroup : (p n : ℕ) → p * fast_base * n ≡ fast_base * (p * n)
    regroup p n = grind arith

-- The value stays where there is room for it, and every item has eight digits.
pub record IsSettled (acc new : List ℕ) : Type 0 where
  pub total : item_value new ≡ item_value acc
  pub is_items : IsItems new
  pub count : length new ≡ length acc

pub resolve-IsSettled :
    (m : ℕ) (acc : List ℕ)
    → m + 1844 + fast_base < 2 ^ 64
    → IsWithin m acc
    → item_value acc < fast_base ^ length acc
    → IsSettled acc (resolve 0 0 0 acc)
resolve-IsSettled m acc small ha fits =
    let s = resolve-IsSpun m 0 0 0 acc small (omega arith) (omega arith) (omega arith) ha in
    record { total = kept _ _ s.lost _ s.total fits; is_items = s.is_items; count = s.count }
  where
    kept : (n a l p : ℕ) → n + p * l ≡ a + (0 + 0 + fast_base * 0) → a < p → n ≡ a
    kept n a zero p e h = omega (arith, e, none p)
      where
        none : (p : ℕ) → p * 0 ≡ 0
        none p = grind arith
    kept n a (suc l) p e h = absurd (omega (arith, e, h, some p l))
      where
        some : (p l : ℕ) → p ≤ p * suc l
        some p l = grind arith
