-- ===== src/Units/Shift.antt =====
-- src/decNumber.c: decShiftToMost, which appends zeros to a number in an array of units.
pub mod Laws
pub mod Least
pub mod Spread
use cpp_decimal.Base.{ℕ, zero, suc, ◌+◌, ◌-◌, ◌*◌, List, [], ◌∷◌, ◌++◌, take, replicate, leb, ◌==◌}
use cpp_decimal.Base.{if◌then◌else◌}
use cpp_decimal.Units.{d2u, msu_digits, powers, quot10, u8}

-- The units at and above the first whole one, each from the quotient of a unit and the remainder of
-- the next one: `below` is the quotient of the unit below.
pub spread : ℕ → List ℕ → ℕ → List ℕ
spread cut [] below = u8 below ∷ []
spread cut (u ∷ us) below =
    let quot = quot10 u cut in
    let rem = u - quot * powers cut in u8 (below + rem * powers (2 - cut)) ∷ spread cut us quot

-- The single unit of a short number.
pub scale_first : ℕ → List ℕ → List ℕ
scale_first shift [] = []
scale_first shift (u ∷ us) = u8 (u * powers shift) ∷ us

-- The units, and the digits. The top unit of `spread` is written only where it is within the new length.
pub shift_to_most : List ℕ → ℕ → ℕ → List ℕ × ℕ
shift_to_most us digits shift =
    if shift == 0
    then (us, digits)
    else if leb (digits + shift) 2
    then (scale_first shift us, digits + shift)
    else (let cut = 2 - msu_digits shift in
        (
          if cut == 0
              then replicate (d2u shift) 0 ++ us
              else replicate (d2u shift - 1) 0
                ++ take (d2u (digits + shift) + 1 - d2u shift) (spread cut us 0),
          digits + shift,
        ))
