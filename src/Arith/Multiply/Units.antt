-- ===== src/Arith/Multiply/Units.antt =====
-- src/decNumber.c: the path of decMultiplyOp that takes a unit of the multiplier at a time.
pub mod Laws
use cpp_decimal.Base.{ℕ, suc, List, [], ◌∷◌, ◌++◌, take, drop, ◌==◌, if◌then◌else◌}
use cpp_decimal.Base.Int.{pos}
use cpp_decimal.Units.AddSub.{unit_add_sub}

-- One unit `u` of the multiplier: the multiplicand times `u` is added from `shift` units up.
pub multiply_step : List ℕ → ℕ → ℕ → List ℕ → List ℕ
multiply_step mad shift u acc =
    if u == 0
    then acc ++ (0 ∷ [])
    else take shift acc ++ (unit_add_sub (drop shift acc) mad 0 (pos u)).units

pub multiply_units : List ℕ → ℕ → List ℕ → List ℕ → List ℕ
multiply_units mad shift [] acc = acc
multiply_units mad shift (u ∷ mer) acc =
    multiply_units mad (suc shift) mer (multiply_step mad shift u acc)
