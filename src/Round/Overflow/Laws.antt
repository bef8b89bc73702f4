-- ===== src/Round/Overflow/Laws.antt =====
-- decSetOverflow and decSetMaxValue: what an overflow leaves.
use cpp_decimal.Base.{◌+◌, ◌^◌, ◌≡◌}
use cpp_decimal.Base.{length}
use cpp_decimal.Base.Int.{pos, ◌+ℤ◌, ◌-ℤ◌}
use cpp_decimal.Context.{DecContext}
use cpp_decimal.Number.{DecNumber}
use cpp_decimal.Units.{value, IsUnits, d2u}

-- The largest finite number: `digits` nines at the largest adjusted exponent.
pub record IsLargest (set : DecContext) (dn : DecNumber) : Type 0 where
  pub total : value dn.lsu + 1 ≡ 10 ^ dn.digits
  pub digits : pos dn.digits ≡ set.digits
  pub exponent : dn.exponent ≡ set.emax -ℤ set.digits +ℤ pos 1
  pub units : IsUnits dn.lsu
  pub same_length : length dn.lsu ≡ d2u dn.digits
