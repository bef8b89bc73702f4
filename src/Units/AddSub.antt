-- ===== src/Units/AddSub.antt =====
-- src/decNumber.c: decUnitAddSub, C = A + B * M with B shifted left by whole units. The array C is
-- written from the least significant unit on, so it is the list that the loops return.
pub mod Loops
pub mod Whole
use cpp_decimal.Base.{ℕ, zero, suc, ◌+◌, ◌-◌, ◌*◌, Bool, true, false, List, [], ◌∷◌, ◌++◌}
use cpp_decimal.Base.{leb, ◌==◌, if◌then◌else◌, get_or}
use cpp_decimal.Base.Int.{ℤ, pos, negsuc, ◌+ℤ◌, ◌-ℤ◌, ◌*ℤ◌, pos_part, sub_ℕ}
use cpp_decimal.Units.{quot10, u8}

-- A unit that is written, and the carry to the next.
pub record Split : Type 0 where
  pub out : ℕ
  pub carry : ℤ

-- The carry is a new unit if it has two digits; else QUOT10 splits it, after 10000 has made a
-- negative one positive.
pub split_unit : ℤ → Split
split_unit (pos t) =
    let est = quot10 t 2 in
    if leb t 99
    then record { out = u8 t; carry = pos 0 }
    else record { out = u8 (t - est * 100); carry = pos est }
split_unit (negsuc n) =
    let t = pos_part (negsuc n +ℤ pos 10000) in
    let est = quot10 t 2 in record { out = u8 (t - est * 100); carry = sub_ℕ est 100 }

-- The arrays written by the loops, and the last carry.
pub record Sum : Type 0 where
  pub units : List ℕ
  pub carry : ℤ

-- Writes one unit before the rest.
pub emit : ℕ → Sum → Sum
emit u rest = record { units = u ∷ rest.units; carry = rest.carry }

-- The two addition loops: while both arrays last, and then over the one that is left.
pub add_loop : ℤ → List ℕ → List ℕ → ℤ → Sum
add_loop m [] [] carry = record { units = []; carry = carry }
add_loop m (x ∷ a) (y ∷ b) carry =
    let s = split_unit (carry +ℤ pos x +ℤ pos y *ℤ m) in emit s.out (add_loop m a b s.carry)
add_loop m (x ∷ a) [] carry =
    let s = split_unit (carry +ℤ pos x) in emit s.out (add_loop m a [] s.carry)
add_loop m [] (y ∷ b) carry =
    let s = split_unit (carry +ℤ pos y *ℤ m) in emit s.out (add_loop m [] b s.carry)

-- The low units of A (or zeros) are copied as far as B is shifted.
pub add_shifted : ℤ → ℕ → List ℕ → List ℕ → Sum
add_shifted m zero a b = add_loop m a b (pos 0)
add_shifted m (suc k) [] b = emit 0 (add_shifted m k [] b)
add_shifted m (suc k) (x ∷ a) b = emit x (add_shifted m k a b)

-- The complement of a result that borrowed.
pub complement : List ℕ → ℕ → List ℕ × ℕ
complement [] add = ([], add)
complement (u ∷ us) add =
    let t = 99 + add - u in
    let fits = leb t 99 in
    let rest = complement us (if fits then 0 else 1) in
    ((if fits then u8 t else 0) ∷ rest.0, rest.1)

-- The units of C; `negative` is the sign of the count that the function returns.
pub record Result : Type 0 where
  pub negative : Bool
  pub units : List ℕ

-- The end: no carry, a positive one that is a new unit, or a borrow.
pub finish : List ℕ → ℤ → Result
finish c (pos zero) = record { negative = false; units = c }
finish c (pos (suc n)) = record { negative = false; units = c ++ u8 (suc n) ∷ [] }
finish c (negsuc n) =
    let (units, add) = complement c 1 in
    let top = pos_part (pos add -ℤ negsuc n -ℤ pos 1) in
    record { negative = true; units = if top == 0 then units else units ++ u8 top ∷ [] }

pub unit_add_sub : List ℕ → List ℕ → ℕ → ℤ → Result
unfolding finish
unit_add_sub a b bshift m = let sum = add_shifted m bshift a b in finish sum.units sum.carry
