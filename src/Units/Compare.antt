-- ===== src/Units/Compare.antt =====
-- src/decNumber.c: decUnitCompare, A against B * 10 ** exp. Arrays have no leading zero units.
pub mod Laws
pub mod Total
use cpp_decimal.Base.{ℕ, zero, suc, ◌+◌, ◌-◌, ◌*◌, ◌/◌, ◌%◌, Bool, true, false, List, [], ◌∷◌}
use cpp_decimal.Base.{ltb, ◌==◌, if◌then◌else◌, length, Option, none, some, ◌&&◌, not}
use cpp_decimal.Base.Int.{ℤ, pos, negsuc, neg_ℕ}
use cpp_decimal.Units.{d2u, powers}
use cpp_decimal.Units.AddSub.{Result, unit_add_sub}

-- The loop over two arrays of one length, from the most significant units down: the higher units
-- decide, and then this one.
pub compare_down : List ℕ → List ℕ → ℤ
compare_down [] b = pos 0
compare_down (x ∷ a) [] = pos 0
compare_down (x ∷ a) (y ∷ b) = elim (compare_down a b) [
  | pos zero ↦ if ltb y x then pos 1 else if ltb x y then negsuc 0 else pos 0
  | other ↦ other
]

-- The check of the difference: the first unit that is not 0, or the last one.
pub find_nonzero : List ℕ → ℤ
find_nonzero [] = pos 0
find_nonzero (zero ∷ us) = find_nonzero us
find_nonzero (suc u ∷ us) = pos 1

-- The units of `accbuff`: SD2U(DECBUFFER * 2 + 1).
abbrev pub accbuff_units : ℕ
accbuff_units = 37

-- -1, 0 or 1; `none` is BADINT. `allocated` says whether `malloc` gives the larger buffer, where one
-- is needed.
pub unit_compare : Bool → List ℕ → List ℕ → ℕ → Option ℤ
unit_compare allocated a b exp =
    let alength = length a in
    let blength = length b in
    if exp == 0
    then (if ltb blength alength
        then some (pos 1)
        else if ltb alength blength
        then some (negsuc 0)
        else some (compare_down a b))
    else if ltb (blength + d2u exp) alength
    then some (pos 1)
    else if ltb (alength + 1) (blength + d2u exp)
    then some (negsuc 0)
    else (let longer = blength + d2u exp in
        let need = (if ltb longer alength then alength else longer) + 2 in
        if ltb accbuff_units need && not allocated
        then none
        else (let r = unit_add_sub a b (exp / 2) (neg_ℕ (powers (exp % 2))) in
            if r.negative then some (negsuc 0) else some (find_nonzero r.units)))
