-- ===== src/Arith/Multiply/Chunks.antt =====
-- src/decNumber.c: the fast path of decMultiplyOp. Units are lumped together in items of eight digits,
-- partial products are added up in 64 bits, and carries are resolved late.
pub mod Rows
pub mod Carry
pub mod Loop
use cpp_decimal.Base.{
  ℕ, zero, suc, ◌+◌, ◌-◌, ◌*◌, ◌/◌, ◌%◌, ◌^◌, List, [], ◌∷◌, ◌++◌, length, replicate,
}
use cpp_decimal.Base.{Bool, ltb, if◌then◌else◌, ◌&&◌, not}
use cpp_decimal.Units.{powers, u8}

-- FASTBASE, FASTDIGS and FASTLAZY
abbrev pub fast_base : ℕ
fast_base = 100000000

abbrev pub fast_digits : ℕ
fast_digits = 8

abbrev pub fast_lazy : ℕ
fast_lazy = 1844

-- What an uLong and a uInt hold.
abbrev pub u64 : ℕ → ℕ
u64 n = n % 2 ^ 64

abbrev pub u32 : ℕ → ℕ
u32 n = n % 2 ^ 32

-- The chunked copy of a coefficient.
pub assemble : List ℕ → List ℕ
assemble [] = []
assemble (a ∷ []) = u32 (a * powers 0) ∷ []
assemble (a ∷ b ∷ []) = u32 (a * powers 0 + b * powers 2) ∷ []
assemble (a ∷ b ∷ c ∷ []) = u32 (a * powers 0 + b * powers 2 + c * powers 4) ∷ []
assemble (a ∷ b ∷ c ∷ d ∷ us) =
    u32 (a * powers 0 + b * powers 2 + c * powers 4 + d * powers 6) ∷ assemble us

-- One item of the right side times each of the left: added to the accumulator from its first item on.
pub add_row : List ℕ → ℕ → List ℕ → List ℕ
add_row [] r acc = acc
add_row (l ∷ ls) r [] = []
add_row (l ∷ ls) r (a ∷ acc) = u64 (a + u64 (l * r)) ∷ add_row ls r acc

-- The same from the item `k` on.
pub add_row_at : ℕ → List ℕ → ℕ → List ℕ → List ℕ
add_row_at zero ls r acc = add_row ls r acc
add_row_at (suc k) ls r [] = []
add_row_at (suc k) ls r (a ∷ acc) = a ∷ add_row_at k ls r acc

-- What one step of the carry resolution leaves, carries, and carries by two places.
pub record Resolved : Type 0 where
  pub low : ℕ
  pub carry : ℕ
  pub carry2 : ℕ

pub resolve_item : ℕ → Resolved
resolve_item item =
    if ltb item fast_base
    then record { low = item; carry = 0; carry2 = 0 }
    else (let lcarry = item / fast_base in
        if ltb lcarry fast_base
        then (let carry = u32 lcarry in
            record { low = item - fast_base * carry; carry = carry; carry2 = 0 })
        else (let carry2 = u32 (lcarry / fast_base) in
            let rest = item - fast_base * fast_base * carry2 in
            let carry = u32 (lcarry - fast_base * carry2) in
            record { low = rest - fast_base * carry; carry = carry; carry2 = carry2 }))

-- The accumulator is spun up: `older` comes from two items before, and then `carry` from the one before,
-- which also has `carry2` for the next item.
pub resolve : ℕ → ℕ → ℕ → List ℕ → List ℕ
resolve older carry carry2 [] = []
resolve older carry carry2 (a ∷ acc) =
    let r = resolve_item (u64 (u64 (a + older) + carry)) in
    r.low ∷ resolve carry2 r.carry r.carry2 acc

-- The loop over the items of the right side. Carries are resolved when the count is down, and at the end.
pub multiply_items : ℕ → ℕ → List ℕ → List ℕ → List ℕ → List ℕ
multiply_items lazy k ls [] acc = acc
multiply_items lazy k ls (r ∷ []) acc = resolve 0 0 0 (add_row_at k ls r acc)
multiply_items lazy k ls (r ∷ s ∷ rs) acc =
    let added = add_row_at k ls r acc in
    let delay = ltb 0 (lazy - 1) in
    multiply_items (if delay then lazy - 1 else fast_lazy) (suc k) ls (s ∷ rs)
      (if delay then added else resolve 0 0 0 added)

-- Each item comes apart in four units.
pub unchunk : List ℕ → List ℕ
unchunk [] = []
unchunk (item ∷ items) =
    let a = u32 item in
    let b = a / 100 in
    let c = b / 100 in
    let d = c / 100 in u8 (a - b * 100) ∷ u8 (b - c * 100) ∷ u8 (c - d * 100) ∷ u8 d ∷ unchunk items

-- The units of the product.
pub multiply_chunks : List ℕ → List ℕ → List ℕ
multiply_chunks lhs rhs =
    let ls = assemble lhs in
    let rs = assemble rhs in
    unchunk (multiply_items fast_lazy 0 ls rs (replicate (length ls + length rs) 0))
