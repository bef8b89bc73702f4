-- ===== src/Number/Sign.antt =====
-- src/decNumber.c: decNumberCopy and the quiet operations on the sign.
pub mod Laws
use cpp_decimal.Base.{ℕ, ltb, if◌then◌else◌, take, bit_and, bit_or, bit_xor, complement8}
use cpp_decimal.Number.{DecNumber, neg_bit}
use cpp_decimal.Units.{d2u}

-- The first unit, and the others where there are more than two digits.
unfoldable pub copy : DecNumber → DecNumber
copy src = record {
  digits = src.digits;
  exponent = src.exponent;
  bits = src.bits;
  lsu = take (if ltb 2 src.digits then d2u src.digits else 1) src.lsu;
}

unfoldable pub copy_abs : DecNumber → DecNumber
unfolding copy
copy_abs rhs = let res = copy rhs in record res { bits = bit_and res.bits (complement8 neg_bit) }

unfoldable pub copy_negate : DecNumber → DecNumber
unfolding copy
copy_negate rhs = let res = copy rhs in record res { bits = bit_xor res.bits neg_bit }

unfoldable pub copy_sign : DecNumber → DecNumber → DecNumber
unfolding copy
copy_sign lhs rhs =
    let sign = bit_and rhs.bits neg_bit in
    let res = copy lhs in record res { bits = bit_or (bit_and res.bits (complement8 neg_bit)) sign }
