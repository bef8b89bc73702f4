-- ===== src/Number/Nan/Laws.antt =====
-- The NaN that decNaNs makes of an operand.
use cpp_decimal.Base.{ℕ, ◌%◌, ◌^◌, ◌≤◌, ◌<◌, ◌≡◌, ◌≢◌, inl, inr, refl, arith, sym}
use cpp_decimal.Base.{
  Bool, true, false, length, has, ◌⊎◌, leb, not, ◌&&◌, if◌then◌else◌, List, [], ◌∷◌, Bool-cases,
}
use cpp_decimal.Base.{bit_and, bit_or, complement8, holds_under, holds_under-at}
use cpp_decimal.Base.Int.{pos}
use cpp_decimal.Number.{DecNumber, IsCoefficient, nan_bit, neg_bit, snan_bit, is_negative}
use cpp_decimal.Number.Digits.Laws.{IsDigits}
use cpp_decimal.Context.{DecContext}
use cpp_decimal.Number.Nan.{deliver, cut_payload, propagate_nan}
use cpp_decimal.Number.Sign.Laws.{copy-eq}
use cpp_decimal.Units.{value, IsUnits, d2u, d2u-eq}
use native.Mathlib.Nat.{pow-le-pow_right}
use cpp_decimal.Number.Nan.Payload.{mod_small}
use cpp_decimal.Number.Nan.Cut.{IsCut, cut_payload-IsCut}

-- The bits of a NaN from all 256 of an operand's: quiet, with the sign that it had.
abbrev quiet : ℕ → Bool
quiet b =
    let r = bit_or (bit_and b (complement8 snan_bit)) nan_bit in
    has r nan_bit
    && not (has r snan_bit)
    && (if has b neg_bit then has r neg_bit else not (has r neg_bit))

quiet_check : holds_under quiet 256 ≡ true
unfolding holds_under
quiet_check = refl

-- What decNaNs makes of a NaN: a quiet NaN with its sign, of exponent 0, and the last digits of its
-- payload.
pub record IsQuieted (source : DecNumber) (p : ℕ) (r : DecNumber) : Type 0 where
  nan : has r.bits nan_bit ≡ true
  not_signalling : has r.bits snan_bit ≡ false
  sign : is_negative r ≡ is_negative source
  exponent : r.exponent ≡ pos 0
  payload : value r.lsu ≡ value source.lsu % 10 ^ p
  units : IsUnits r.lsu
  same_length : length r.lsu ≡ d2u r.digits
  short : r.digits ≤ p
  digits : ((p % 2 ≡ 0) × (p < source.digits) × (r.digits ≡ p)) ⊎ IsDigits (value r.lsu) r.digits

-- decNaNs on a NaN with a valid coefficient, for a positive precision `p`: the result is a quiet NaN
-- with its sign, its exponent is 0, and its payload is the last `p` digits of the operand's. The array
-- has the units that its digits need, there are at most `p` digits, and they are counted without leading
-- zeros, save that a longer payload cut to an even `p` keeps `p` digits.
pub propagate_nan_lem :
    (source : DecNumber) (p : ℕ)
    → IsCoefficient source.digits source.lsu
    → source.bits < 256
    → 0 < p
    → IsQuieted source p (propagate_nan source p)
unfolding propagate_nan
propagate_nan_lem source p c hb hp = elim (Bool-cases (leb source.digits p)) [
  | inl short ↦
      rw (short, copy-eq source c)
        (quieted source (record {
          total = sym (
              mod_small (value source.lsu) (10 ^ p) (
                omega
                  (arith, c.fits, pow-le-pow_right {n = 10} (omega arith) (at_most _ _ short))));
          units = c.units;
          bits = refl;
          same_length = c.same_length;
          short = at_most _ _ short;
          digits = inr (record { some_digit = c.some_digit; fits = c.fits; leading = c.leading });
        }))
  | inr long ↦ rw long (
      quieted (cut_payload source p)
        (cut_payload-IsCut source p c (some_unit source.lsu c) hp (above _ _ long)))
]
  where
    at_most : (a b : ℕ) → leb a b ≡ true → a ≤ b
    at_most a b h = ground (arith, h)

    above : (a b : ℕ) → leb a b ≡ false → b < a
    above a b h = ground (arith, h)

    some_unit : {digits : ℕ} (us : List ℕ) → IsCoefficient digits us → us ≢ []
    some_unit {digits} [] c = absurd (omega (arith, c.same_length, c.some_digit, d2u-eq digits))
    some_unit (u ∷ us) c = λ e. cc e

    parts :
        (a b c d : Bool)
        → a && not b && (if c then d else not d) ≡ true
        → (a ≡ true) × ((b ≡ false) × (d ≡ c))
    parts true false true true h = (refl, (refl, refl))
    parts true false false false h = (refl, (refl, refl))
    parts true false true false h = absurd (cc h)
    parts true false false true h = absurd (cc h)
    parts true true c d h = absurd (cc h)
    parts false b c d h = absurd (cc h)

    quieted :
        (dn : DecNumber)
        → IsCut source p dn
        → IsQuieted source p (record dn {
          bits = bit_or (bit_and dn.bits (complement8 snan_bit)) nan_bit;
          exponent = pos 0;
        })
    quieted dn cut =
        let q = parts _ _ _ _ (holds_under-at quiet 256 source.bits hb quiet_check) in
        rw cut.bits (record {
          nan = q.0;
          not_signalling = q.1.0;
          sign = q.1.1;
          exponent = refl;
          payload = cut.total;
          units = cut.units;
          same_length = cut.same_length;
          short = cut.short;
          digits = cut.digits;
        })

-- An operation with no condition to report leaves the context alone.
pub deliver-zero :
    (dn : DecNumber) (set : DecContext)
    → deliver dn 0 set
      ≡ record { number = dn; signalled = record { context = set; raised = false } }
unfolding deliver
deliver-zero dn set = refl
