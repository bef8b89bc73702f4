-- ===== src/Packed/RoundTrip.antt =====
-- A number comes back from packed decimal.
use cpp_decimal.Base.{
  ℕ, zero, suc, ◌+◌, ◌-◌, ◌*◌, ◌/◌, ◌%◌, ◌^◌, ◌≤◌, ◌<◌, ◌≡◌, ◌⊎◌, inl, inr, refl, arith, ap, ◌∙◌,
}
use cpp_decimal.Base.{
  Bool, true, false, List, [], ◌∷◌, length, pow-suc, Option, some, Bool-cases, ltb, bit_and, ◌==◌,
  if◌then◌else◌,
}
use cpp_decimal.Base.Int.{ℤ, pos, neg, neg_ℕ, ◌+ℤ◌, ◌-ℤ◌, ◌≤ℤ◌, leb_ℤ, ltb_ℤ}
use cpp_decimal.Number.{DecNumber, IsCoefficient, is_negative, is_special, neg_bit}
use cpp_decimal.Number.Compare.Laws.{IsFinite}
use cpp_decimal.Packed.{
  Packed, count_digits, from_left, from_number, minus_nibble, out_of_range, plus_nibble, refill,
  to_number,
}
use cpp_decimal.Packed.Collect.{from_left-nibble_bytes, right_nibble}
use cpp_decimal.Packed.Count.{count_digits-nibble_bytes, count_digits-zero}
use cpp_decimal.Packed.Bytes.{IsTopped, IsTopped-at, pack-nibble_bytes, nibble_bytes}
use cpp_decimal.Units.{value, IsUnits, d2u-eq}

-- The places of a valid coefficient.
topped :
    (least d : ℕ) (us : List ℕ)
    → IsUnits us
    → length us ≡ (d + 1) / 2
    → value us < 10 ^ d
    → 10 ^ d ≤ 10 * value us
    → least ≤ 1
    → IsTopped least d us
topped least d [] hu len fits lead hl = omega (arith, len)
topped least zero (u ∷ us) hu len fits lead hl = absurd (omega (arith, len))
topped least (suc zero) (u ∷ []) hu len fits lead hl =
    inl (refl, omega (arith, lead), omega (arith, fits))
topped least (suc (suc zero)) (u ∷ []) hu len fits lead hl =
    inr (refl, omega (arith, lead), omega (arith, fits))
topped least (suc (suc (suc e))) (u ∷ []) hu len fits lead hl = absurd (omega (arith, len))
topped least (suc zero) (u ∷ v ∷ us) hu len fits lead hl = absurd (omega (arith, len))
topped least (suc (suc zero)) (u ∷ v ∷ us) hu len fits lead hl = absurd (omega (arith, len))
topped least (suc (suc (suc e))) (u ∷ v ∷ us) hu len fits lead hl =
    let p = pow-suc 10 (suc (suc e)) in
    let q = pow-suc 10 (suc e) in
    let r = pow-suc 10 e in
    (
      omega arith,
      hu.0,
      IsTopped-at least (v ∷ us) (two e) (
          topped least (suc e) (v ∷ us) hu.1 (omega (arith, len)) (omega (arith, fits, p, q))
            (omega (arith, lead, hu.0, p, q, r)) hl),
    )
  where
    two : (e : ℕ) → suc e ≡ suc (suc (suc e)) - 2
    two e = omega arith

-- The units of a number, a zero of one digit apart.
record IsPlaced (d : ℕ) (us : List ℕ) : Type 0 where
  weak : IsTopped 0 d us
  strong : ((d ≡ 1) × (us ≡ 0 ∷ [])) ⊎ IsTopped 1 d us

placed : (d : ℕ) (us : List ℕ) → IsCoefficient d us → IsPlaced d us
placed d us c = elim c.leading [
  | inr lead ↦ record {
    weak = topped 0 d us c.units len c.fits lead (omega arith);
    strong = inr (topped 1 d us c.units len c.fits lead (omega arith));
  }
  | inl one ↦ single d us one len c.fits
]
  where
    len : length us ≡ (d + 1) / 2
    len = c.same_length ∙ d2u-eq d

    single :
        (d : ℕ) (us : List ℕ) → d ≡ 1 → length us ≡ (d + 1) / 2 → value us < 10 ^ d → IsPlaced d us
    single d [] e l f = absurd (omega (arith, e, l))
    single d (u ∷ v ∷ us) e l f = absurd (omega (arith, e, l))
    single d (zero ∷ []) e l f = record {
      weak = inl (e, omega arith, omega arith);
      strong = inl (e, refl);
    }
    single d (suc u ∷ []) e l f = record {
      weak = inl (e, omega arith, small d e f);
      strong = inr (inl (e, omega arith, small d e f));
    }
      where
        small : (d : ℕ) → d ≡ 1 → suc u + 100 * 0 < 10 ^ d → suc u < 10
        small d e f = omega (arith, rw e at f)

abbrev sign_nibble : Bool → ℕ
sign_nibble negative = if negative then minus_nibble else plus_nibble

abbrev sign_bit : Bool → ℕ
sign_bit negative = if negative then neg_bit else 0

sign_lt : (negative : Bool) → (1 ≤ sign_nibble negative) × (sign_nibble negative < 16)
sign_lt true = (omega arith, omega arith)
sign_lt false = (omega arith, omega arith)

-- The last byte has the sign.
last_nibble :
    (negative : Bool) (k : ℕ) → bit_and (sign_nibble negative + 16 * k) 0x0f ≡ sign_nibble negative
last_nibble true k = omega (arith, right_nibble (13 + 16 * k))
last_nibble false k = omega (arith, right_nibble (12 + 16 * k))

to_number_last :
    (negative : Bool) (b : ℕ) (bs : List ℕ) (scale : ℤ) (d u : ℕ) (us : List ℕ)
    → bit_and b 0x0f ≡ sign_nibble negative
    → out_of_range d scale ≡ false
    → (count_digits (b ∷ bs) ≡ 0) × (d ≡ 1) × (u ∷ us ≡ 0 ∷ [])
      ⊎ (count_digits (b ∷ bs) ≡ d) × (0 < d) × (from_left d b bs ≡ some (u ∷ us))
    → to_number (b ∷ bs) scale
      ≡ some (record { digits = d; exponent = neg scale; bits = sign_bit negative; lsu = u ∷ us })
unfolding to_number
to_number_last true b bs scale d u us e r (inl h) = rw (e, h.0, rw h.1 at r) (rw (h.1, h.2) refl)
to_number_last true b bs scale d u us e r (inr h) = rw (e, h.0, nonzero d h.1, r, h.2) refl
  where
    nonzero : (d : ℕ) → 0 < d → (d == 0) ≡ false
    nonzero d h = ground (arith, h)
to_number_last false b bs scale d u us e r (inl h) = rw (e, h.0, rw h.1 at r) (rw (h.1, h.2) refl)
to_number_last false b bs scale d u us e r (inr h) = rw (e, h.0, nonzero d h.1, r, h.2) refl
  where
    nonzero : (d : ℕ) → 0 < d → (d == 0) ≡ false
    nonzero d h = ground (arith, h)

topped_some : (d u : ℕ) (us : List ℕ) → IsTopped 1 d (u ∷ us) → 0 < d
topped_some d u [] (inl o) = omega (arith, o.0)
topped_some d u [] (inr o) = omega (arith, o.0)
topped_some d u (v ∷ us) t = omega (arith, t.0)

-- The bytes that decPackedFromNumber makes.
to_number-nibble_bytes :
    (n : ℕ) (negative : Bool) (scale : ℤ) (d u : ℕ) (us : List ℕ)
    → IsPlaced d (u ∷ us)
    → suc d ≤ 2 * suc n
    → out_of_range d scale ≡ false
    → to_number (nibble_bytes (suc n) (sign_nibble negative) (u ∷ us)) scale
      ≡ some (record { digits = d; exponent = neg scale; bits = sign_bit negative; lsu = u ∷ us })
to_number-nibble_bytes n negative scale d u us p len r =
    let sign = sign_nibble negative in
    to_number_last negative (sign + 16 * (u % 10)) (nibble_bytes n (u / 10) us) scale d u us
      (last_nibble negative (u % 10)) r
      (elim p.strong [
        | inl z ↦ inl (all_zero z.1, z.0, z.1)
        | inr t ↦ inr (
          count_digits-nibble_bytes (suc n) sign d u us (sign_lt negative).1 t len,
          topped_some d u us t,
          from_left-nibble_bytes n sign d u us (sign_lt negative).1 p.weak len,
        )
      ])
  where
    all_zero :
        u ∷ us ≡ 0 ∷ [] → count_digits (nibble_bytes (suc n) (sign_nibble negative) (u ∷ us)) ≡ 0
    all_zero e =
        ap (λ l. count_digits (nibble_bytes (suc n) (sign_nibble negative) l)) e
        ∙ count_digits-zero n (sign_nibble negative) (sign_lt negative).0 (sign_lt negative).1

start :
    (us : List ℕ) (u : ℕ) (rest : List ℕ)
    → us ≡ u ∷ rest
    → refill (refill (record { u = 0; cut = 0; rest = us }))
      ≡ record { u = u; cut = 2; rest = rest }
unfolding refill
start us u rest e = rw e refl

from_number-nibble_bytes :
    (n : ℕ) (dn : DecNumber) (u : ℕ) (us : List ℕ)
    → is_special dn ≡ false
    → suc dn.digits ≤ 2 * n
    → dn.lsu ≡ u ∷ us
    → IsTopped 0 dn.digits (u ∷ us)
    → from_number n dn
      ≡ some (record {
        bcd = nibble_bytes n (sign_nibble (is_negative dn)) (u ∷ us);
        scale = neg dn.exponent;
      })
unfolding from_number
from_number-nibble_bytes n dn u us plain len e t =
    rw (short, plain)
      (ap (λ (bs : List ℕ). some (record { bcd = bs; scale = neg dn.exponent }))
        (pack-nibble_bytes n (sign_nibble (is_negative dn)) u us dn.digits _ (start dn.lsu u us e) t
          (sign_lt (is_negative dn)).1))
  where
    short : ltb (n * 2) (dn.digits + 1) ≡ false
    short = ground (arith, len)

not_under :
    (d : ℕ) (e : ℤ)
    → neg_ℕ 999999999 ≤ℤ e +ℤ pos d -ℤ pos 1
    → ltb_ℤ (pos d -ℤ neg e -ℤ pos 1) (neg_ℕ 999999999) ≡ false
not_under d e lo = ground (arith, lo)

not_far :
    (d : ℕ) (e : ℤ)
    → 0 < d
    → e +ℤ pos d -ℤ pos 1 ≤ℤ pos 999999999
    → ltb_ℤ (neg e) (neg_ℕ 999999999) ≡ false
not_far d e h hi = ground (arith, h, hi)

not_over :
    (d : ℕ) (e : ℤ)
    → e +ℤ pos d -ℤ pos 1 ≤ℤ pos 999999999
    → ltb_ℤ (pos 999999999) (pos d -ℤ neg e -ℤ pos 1) ≡ false
not_over d e hi = ground (arith, hi)

-- The adjusted exponent is within the range that packed decimal allows.
in_range :
    (d : ℕ) (e : ℤ)
    → 0 < d
    → neg_ℕ 999999999 ≤ℤ e +ℤ pos d -ℤ pos 1
    → e +ℤ pos d -ℤ pos 1 ≤ℤ pos 999999999
    → out_of_range d (neg e) ≡ false
unfolding out_of_range
in_range d e h lo hi = elim (Bool-cases (leb_ℤ (pos 0) (neg e))) [
  | inl y ↦ rw y (not_under d e lo)
  | inr z ↦ rw (z, not_far d e h hi) (not_over d e hi)
]

neg-neg : (e : ℤ) → neg (neg e) ≡ e
neg-neg e = ground arith

abbrev unpacked : Bool → ℕ → ℤ → List ℕ → Option DecNumber
unpacked negative d e us =
    some (record { digits = d; exponent = e; bits = sign_bit negative; lsu = us })

restored :
    (negative : Bool) (d : ℕ) {x y : ℤ} {a b : List ℕ}
    → x ≡ y
    → b ≡ a
    → unpacked negative d x a ≡ unpacked negative d y b
restored negative d e f = rw (e, f) refl

pub record IsUnpacked (size : ℕ) (dn : DecNumber) : Type 0 where
  pub packed : Packed
  pub given : from_number size dn ≡ some packed
  pub scale : packed.scale ≡ neg dn.exponent
  pub back :
      to_number packed.bcd packed.scale
      ≡ some (record dn { bits = if is_negative dn then neg_bit else 0 })

-- A valid finite number with at most `size` * 2 - 1 digits, whose adjusted exponent is within 999999999 either
-- way: decPackedFromNumber gives bytes and a scale, the exponent negated, from which decPackedToNumber makes the
-- number again, with the same digits, exponent, units and sign.
pub to_number-from_number :
    (size : ℕ) (dn : DecNumber)
    → IsFinite dn
    → suc dn.digits ≤ 2 * size
    → neg_ℕ 999999999 ≤ℤ dn.exponent +ℤ pos dn.digits -ℤ pos 1
    → dn.exponent +ℤ pos dn.digits -ℤ pos 1 ≤ℤ pos 999999999
    → IsUnpacked size dn
to_number-from_number zero dn f len lo hi = absurd (omega arith)
to_number-from_number (suc n) dn f len lo hi = split dn.lsu refl
  where
    some_digit : 0 < dn.digits
    some_digit = f.coefficient.some_digit

    split : (l : List ℕ) → dn.lsu ≡ l → IsUnpacked (suc n) dn
    split [] e =
        absurd (omega (arith, ap length e, f.coefficient.same_length, d2u-eq dn.digits, some_digit))
    split (u ∷ us) e =
        let p = placed dn.digits (u ∷ us) (rw e at f.coefficient) in
        let bytes = nibble_bytes (suc n) (sign_nibble (is_negative dn)) (u ∷ us) in
        let r = in_range dn.digits dn.exponent some_digit lo hi in
        record {
          packed = record { bcd = bytes; scale = neg dn.exponent };
          given = from_number-nibble_bytes (suc n) dn u us f.plain len e p.weak;
          scale = refl;
          back =
              to_number-nibble_bytes n (is_negative dn) (neg dn.exponent) dn.digits u us p len r
              ∙ restored (is_negative dn) dn.digits (neg-neg dn.exponent) e;
        }
