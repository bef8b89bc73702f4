-- ===== src/Number/Sign/Laws.antt =====
-- The quiet operations change the sign and nothing else.
use cpp_decimal.Base.{ℕ, zero, suc, ◌%◌, ◌<◌, ◌≡◌, inl, inr, refl, arith, sym, ◌∙◌}
use cpp_decimal.Base.{
  Bool, true, false, List, [], ◌∷◌, length, take, not, has, ltb, ◌==◌, ◌&&◌, if◌then◌else◌,
}
use cpp_decimal.Base.{bit_and, bit_or, bit_xor, complement8, holds_under, holds_under-at, ap}
use cpp_decimal.Number.{DecNumber, IsCoefficient, is_negative, neg_bit}
use cpp_decimal.Number.Laws.{sign_cases}
use cpp_decimal.Number.Sign.{copy, copy_abs, copy_negate, copy_sign}
use cpp_decimal.Units.{d2u-eq, d2u}

take_all : (n : ℕ) (us : List ℕ) → length us ≡ n → take n us ≡ us
take_all zero [] e = refl
take_all zero (u ∷ us) e = absurd (omega arith)
take_all (suc n) [] e = refl
take_all (suc n) (u ∷ us) e = ap (λ t. u ∷ t) (take_all n us (omega arith))

copy_count : (digits : ℕ) → 0 < digits → (if ltb 2 digits then d2u digits else 1) ≡ d2u digits
copy_count digits h = ground (arith, d2u-eq digits)

pub copy_units_lem :
    (digits : ℕ) (us : List ℕ)
    → IsCoefficient digits us
    → take (if ltb 2 digits then d2u digits else 1) us ≡ us
copy_units_lem digits us c = take_all _ us (c.same_length ∙ sym (copy_count digits c.some_digit))

-- `r` is `dn` with the sign `negative`.
pub record IsSigned (r dn : DecNumber) (negative : Bool) : Type 0 where
  pub sign : is_negative r ≡ negative
  pub other_bits : r.bits % 128 ≡ dn.bits % 128
  pub lsu : r.lsu ≡ dn.lsu
  pub digits : r.digits ≡ dn.digits
  pub exponent : r.exponent ≡ dn.exponent

-- What each change of the bits does to all 256 of them: the sign, and the other bits.
abbrev clears : ℕ → Bool
clears b = let r = bit_and b (complement8 neg_bit) in not (has r neg_bit) && (r % 128 == b % 128)

abbrev inverts : ℕ → Bool
inverts b =
    let r = bit_xor b neg_bit in
    (if has b neg_bit then not (has r neg_bit) else has r neg_bit) && (r % 128 == b % 128)

abbrev unsigned : ℕ → Bool
unsigned b =
    let r = bit_or (bit_and b (complement8 neg_bit)) 0 in
    not (has r neg_bit) && (r % 128 == b % 128)

abbrev signs : ℕ → Bool
signs b =
    let r = bit_or (bit_and b (complement8 neg_bit)) neg_bit in
    has r neg_bit && (r % 128 == b % 128)

clears_check : holds_under clears 256 ≡ true
unfolding holds_under
clears_check = refl

inverts_check : holds_under inverts 256 ≡ true
unfolding holds_under
inverts_check = refl

unsigned_check : holds_under unsigned 256 ≡ true
unfolding holds_under
unsigned_check = refl

signs_check : holds_under signs 256 ≡ true
unfolding holds_under
signs_check = refl

split : (a : Bool) (m n : ℕ) → a && (m == n) ≡ true → (a ≡ true) × (m ≡ n)
split a m n h = (ground (arith, h), ground (arith, h))

cleared : (a : Bool) → not a ≡ true → a ≡ false
cleared true h = cc h
cleared false h = refl

inverted : (a b : Bool) → (if a then not b else b) ≡ true → b ≡ not a
inverted true b h = cleared b h
inverted false b h = h

-- decNumberCopyAbs, decNumberCopyNegate and decNumberCopySign on a number with a valid coefficient: the
-- first clears the sign, the second inverts it, the third takes that of its second operand; the other
-- bits, the digits, the exponent and the units are those of the first.
pub copy_signs_lem :
    (dn rhs : DecNumber)
    → IsCoefficient dn.digits dn.lsu
    → dn.bits < 256
    → IsSigned (copy_abs dn) dn false
      × IsSigned (copy_negate dn) dn (not (is_negative dn))
      × IsSigned (copy_sign dn rhs) dn (is_negative rhs)
unfolding copy copy_abs copy_negate copy_sign
copy_signs_lem dn rhs c h =
    let units = copy_units_lem dn.digits dn.lsu c in
    let abs = split _ _ _ (holds_under-at clears 256 dn.bits h clears_check) in
    let negate = split _ _ _ (holds_under-at inverts 256 dn.bits h inverts_check) in
    (
      record {
        sign = cleared _ abs.0;
        other_bits = abs.1;
        lsu = units;
        digits = refl;
        exponent = refl;
      },
      record {
        sign = inverted _ _ negate.0;
        other_bits = negate.1;
        lsu = units;
        digits = refl;
        exponent = refl;
      },
      record {
        sign = (from_rhs dn.bits h).0;
        other_bits = (from_rhs dn.bits h).1;
        lsu = units;
        digits = refl;
        exponent = refl;
      },
    )
  where
    from_rhs :
        (b : ℕ)
        → b < 256
        → let r = bit_or (bit_and b (complement8 neg_bit)) (bit_and rhs.bits neg_bit) in
          (has r neg_bit ≡ has rhs.bits neg_bit) × (r % 128 ≡ b % 128)
    from_rhs b h = elim (sign_cases rhs.bits) [
      | inl plus ↦
          let t = split _ _ _ (holds_under-at unsigned 256 b h unsigned_check) in
          rw plus (cleared _ t.0 ∙ sym (ground (arith, plus)), t.1)
      | inr minus ↦
          let t = split _ _ _ (holds_under-at signs 256 b h signs_check) in
          rw minus (t.0 ∙ sym (ground (arith, minus)), t.1)
    ]

-- A copy of a number with a valid coefficient is that number.
pub copy-eq : (dn : DecNumber) → IsCoefficient dn.digits dn.lsu → copy dn ≡ dn
unfolding copy
copy-eq dn c = simp (copy_units_lem dn.digits dn.lsu c)
