-- ===== src/Packed.antt =====
-- src/decPacked.h and src/decPacked.c: packed decimal. An array of bytes is listed from the last byte, which
-- has the sign, to the first, so that digits come least significant first, like units.
pub mod Bytes
pub mod Collect
pub mod Count
pub mod RoundTrip
use cpp_decimal.Base.{ℕ, zero, suc, ◌+◌, ◌-◌, ◌*◌, ◌/◌, ◌^◌, List, [], ◌∷◌, Option, none, some}
use cpp_decimal.Base.{
  Bool, true, false, bit_and, bit_or, has, ltb, ◌==◌, if◌then◌else◌, ◌&&◌, ◌||◌, not,
}
use cpp_decimal.Base.Int.{ℤ, pos, neg, neg_ℕ, ◌+ℤ◌, ◌-ℤ◌, leb_ℤ, ltb_ℤ}
use cpp_decimal.Number.{DecNumber, neg_bit, is_negative, is_special, zero_number}
use cpp_decimal.Number.Int32.{x10}
use cpp_decimal.Units.{powers, u8}
use mathlib.Core.Option

abbrev pub plus_nibble : ℕ
plus_nibble = 0x0C

abbrev pub minus_nibble : ℕ
minus_nibble = 0x0D

abbrev pub alternate_minus : ℕ
alternate_minus = 0x0B

-- The place in the units that are unpacked: the current unit, what is left of it in digits, and the units after it.
pub record Source : Type 0 where
  pub u : ℕ
  pub cut : ℕ
  pub rest : List ℕ

-- The next unit when the current one is used up. There is no unit after the last.
pub refill : Source → Source
refill s =
    if s.cut == 0
    then (elim s.rest [
      | [] ↦ record { u = 0; cut = 2; rest = [] }
      | u ∷ us ↦ record { u = u; cut = 2; rest = us }
    ])
    else s

-- A digit from the units, and 0 when all digits are taken.
pub record Taken : Type 0 where
  pub nib : ℕ
  pub source : Source
  pub indigs : ℕ

pub take_digit : Source → ℕ → Taken
take_digit s zero = record { nib = 0; source = s; indigs = 0 }
take_digit s (suc n) =
    let r = refill s in
    let temp = r.u * 6554 / 2 ^ 16 in
    record {
      nib = r.u - x10 temp;
      source = record { u = temp; cut = r.cut - 1; rest = r.rest };
      indigs = n;
    }

-- The loop over the bytes.
pub pack : ℕ → Source → ℕ → ℕ → List ℕ
pack zero s obyte indigs = []
pack (suc n) s obyte indigs =
    let high = take_digit s indigs in
    let low = take_digit high.source high.indigs in
    u8 (bit_or obyte (high.nib * 2 ^ 4)) ∷ pack n low.source (u8 low.nib) low.indigs

pub record Packed : Type 0 where
  pub bcd : List ℕ
  pub scale : ℤ

-- decPackedFromNumber: `none` is NULL.
pub from_number : ℕ → DecNumber → Option Packed
from_number length dn =
    if ltb (length * 2) (dn.digits + 1) || is_special dn
    then none
    else some (record {
      bcd =
          pack length (refill (record { u = 0; cut = 0; rest = dn.lsu }))
            (if is_negative dn then minus_nibble else plus_nibble) dn.digits;
      scale = neg dn.exponent;
    })

-- The first byte that is not 0, and how many bytes it is away from the last one.
pub first_byte : List ℕ → Option (ℕ × ℕ)
first_byte [] = none
first_byte (b ∷ bs) = elim (first_byte bs) [
  | some f ↦ some (suc f.0, f.1)
  | none ↦ if b == 0 then none else some (0, b)
]

-- The digits in the bytes.
pub count_digits : List ℕ → ℕ
count_digits bcd = elim (first_byte bcd) [
  | none ↦ 0
  | some f ↦ f.0 * 2 + 1 - (if bit_and f.1 0xf0 == 0 then 1 else 0)
]

-- A digit goes into the current unit.
pub put : ℕ → ℕ → ℕ → ℕ
put cut u nib = if cut == 0 then nib else u8 (u + nib * powers cut)

pub next_cut : ℕ → ℕ
next_cut cut = if cut + 1 == 2 then 0 else cut + 1

-- After a digit: `unit` is the current unit with it, and `rest` is what the loop goes on to.
pub place : ℕ → ℕ → ℕ → ℕ → Option (List ℕ) → Option (List ℕ)
place nib digits cut unit rest =
    if ltb 9 nib
    then none
    else if digits == 1
    then some (unit ∷ [])
    else if cut + 1 == 2
    then Option.map (λ (us : List ℕ). unit ∷ us) rest
    else rest

-- The loop from the right nibble of a byte on, and its start at the left nibble of the last one.
pub from_right : ℕ → ℕ → ℕ → List ℕ → Option (List ℕ)
from_right digits cut u [] = none
from_right digits cut u (b ∷ bs) =
    let low = bit_and b 0x0f in
    let v = put cut u low in
    let c = next_cut cut in
    let high = bit_and b 0xf0 / 2 ^ 4 in
    let w = put c v high in
    place low digits cut v (place high (digits - 1) c w (from_right (digits - 2) (next_cut c) w bs))

pub from_left : ℕ → ℕ → List ℕ → Option (List ℕ)
from_left digits b bs =
    let high = bit_and b 0xf0 / 2 ^ 4 in
    let w = put 0 0 high in place high digits 0 w (from_right (digits - 1) (next_cut 0) w bs)

-- Whether the adjusted exponent is out of range. DECNUMMAXE is 999999999.
pub out_of_range : ℕ → ℤ → Bool
out_of_range digits scale =
    if leb_ℤ (pos 0) scale
    then ltb_ℤ (pos digits -ℤ scale -ℤ pos 1) (neg_ℕ 999999999)
    else ltb_ℤ scale (neg_ℕ 999999999) || ltb_ℤ (pos 999999999) (pos digits -ℤ scale -ℤ pos 1)

-- `none` is NULL; the decNumber is then 0.
pub to_number : List ℕ → ℤ → Option DecNumber
to_number [] scale = none
to_number (last ∷ bcd) scale =
    let sign = bit_and last 0x0f in
    let minus = sign == minus_nibble || sign == alternate_minus in
    let digits = count_digits (last ∷ bcd) in
    let dn : DecNumber = record zero_number {
      bits = if minus then neg_bit else 0;
      digits = if digits == 0 then 1 else digits;
      exponent = neg scale;
    } in
    if not minus && not (ltb 9 sign)
    then none
    else if out_of_range dn.digits scale
    then none
    else if digits == 0
    then some dn
    else Option.map (λ (us : List ℕ). record dn { lsu = us }) (from_left digits last bcd)
