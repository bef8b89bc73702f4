-- ===== src/Round/Apply/Laws.antt =====
-- decApplyRound: the bump that each mode asks for, and the bumped coefficient.
use cpp_decimal.Base.{ℕ, zero, suc, ◌+◌, ◌/◌, ◌%◌, ◌^◌, ◌<◌, ◌≡◌, refl, arith}
use cpp_decimal.Base.{Bool, true, false, List, [], ◌∷◌, pow-suc, ◌==◌, if◌then◌else◌}
use cpp_decimal.Base.{bit_and-one, length, Bool-cases, inl, inr, one-le-pow, ==_iff, sym, ◌∙◌, ◌≢◌}
use cpp_decimal.Base.Int.{ℤ, pos, ◌+ℤ◌, ◌≤ℤ◌, ltb_ℤ, eqb_ℤ, eq_of_parts}
use cpp_decimal.Context.{DecContext, Rounding}
use cpp_decimal.Number.{DecNumber, is_negative, first_unit}
use cpp_decimal.Round.Apply.{round_bump, all_nines, one_zeros, bump_unit, bump_up, apply_round}
use cpp_decimal.Round.Coeff.Laws.{IsResidue}
use cpp_decimal.Round.Spec.{rounds_up, IsScaled}
use cpp_decimal.Units.{value, IsUnits}
use cpp_decimal.Units.AddSub.Whole.{unit_add_sub_lem}

-- The low digit decides the parity and the remainder by five.
first_unit-mod :
    (us : List ℕ) → (first_unit us % 2 ≡ value us % 2) × (first_unit us % 5 ≡ value us % 5)
first_unit-mod [] = (refl, refl)
first_unit-mod (u ∷ us) = omega arith

-- The bump is the one that the mode asks for.
pub round_bump-rounds_up :
    (mode : Rounding) (negative : Bool) (us : List ℕ) (x p : ℕ) (r : ℤ)
    → 0 < p
    → IsResidue x p r
    → round_bump mode negative (first_unit us) r
      ≡ (if rounds_up mode negative (value us) x p then pos 1 else pos 0)
unfolding round_bump rounds_up
round_bump-rounds_up Rounding.ceiling negative us x p r h c =
    ground (arith, c.exact, c.below, c.half, c.above)
round_bump-rounds_up Rounding.up negative us x p r h c =
    ground (arith, c.exact, c.below, c.half, c.above)
round_bump-rounds_up Rounding.half_up negative us x p r h c =
    ground (arith, c.exact, c.below, c.half, c.above)
round_bump-rounds_up Rounding.half_even negative us x p r h c =
    ground
      (arith, c.exact, c.below, c.half, c.above, first_unit-mod us, bit_and-one (first_unit us))
round_bump-rounds_up Rounding.half_down negative us x p r h c =
    ground (arith, c.exact, c.below, c.half, c.above)
round_bump-rounds_up Rounding.down negative us x p r h c =
    ground (arith, c.exact, c.below, c.half, c.above)
round_bump-rounds_up Rounding.floor negative us x p r h c =
    ground (arith, c.exact, c.below, c.half, c.above)
round_bump-rounds_up Rounding.up05 negative us x p r h c =
    ground (arith, c.exact, c.below, c.half, c.above, first_unit-mod us)
round_bump-rounds_up Rounding.max negative us x p r h c = refl

all_nines_lem :
    (us : List ℕ) (count : ℕ)
    → IsUnits us
    → length us ≡ (suc count + 1) / 2
    → all_nines us (suc count) ≡ (value us + 1 == 10 ^ suc count)
unfolding all_nines
all_nines_lem [] count hu e = absurd (omega arith)
all_nines_lem (u ∷ []) zero hu e = ground arith
all_nines_lem (u ∷ []) (suc zero) hu e = ground arith
all_nines_lem (u ∷ v ∷ us) zero hu e = absurd (omega arith)
all_nines_lem (u ∷ v ∷ us) (suc zero) hu e = absurd (omega arith)
all_nines_lem (u ∷ us) (suc (suc count)) hu e =
    ground (arith, all_nines_lem us count, pow-suc 10 (suc (suc count)), pow-suc 10 (suc count))

one_zeros_lem :
    (count : ℕ) → (value (one_zeros (suc count)) ≡ 10 ^ count) × IsUnits (one_zeros (suc count))
unfolding one_zeros
one_zeros_lem zero = omega arith
one_zeros_lem (suc zero) = omega arith
one_zeros_lem (suc (suc count)) =
    let rest = one_zeros_lem count in
    (omega (arith, rest.0, pow-suc 10 (suc count), pow-suc 10 count), (omega arith, rest.1))

length-one_zeros : (count : ℕ) → length (one_zeros (suc count)) ≡ (suc count + 1) / 2
unfolding one_zeros
length-one_zeros zero = refl
length-one_zeros (suc zero) = refl
length-one_zeros (suc (suc count)) = omega (arith, length-one_zeros count)

bump_unit_lem :
    (dn : DecNumber)
    → IsUnits dn.lsu
    → (value (bump_unit dn (pos 1)).lsu ≡ value dn.lsu + 1) × IsUnits (bump_unit dn (pos 1)).lsu
unfolding bump_unit
bump_unit_lem dn hu =
    let sum = unit_add_sub_lem dn.lsu (1 ∷ []) 0 (pos 1) hu (omega arith) (omega arith) in
    (ground (arith, sum.0, sum.2), sum.1)

-- A bump up of `digits` digits adds one; where nines become 10..0, one less zero is stored and the
-- exponent goes up. Only then can the result overflow.
pub bump_up_lem :
    (dn : DecNumber) (set : DecContext) (status c : ℕ)
    → dn.digits ≡ suc c
    → IsUnits dn.lsu
    → length dn.lsu ≡ (suc c + 1) / 2
    → value dn.lsu < 10 ^ suc c
    → dn.exponent +ℤ pos 1 +ℤ pos (suc c) ≤ℤ set.emax +ℤ pos 1
    → IsScaled (value dn.lsu + 1) (suc c) dn.exponent dn.bits (bump_up dn set status).number
unfolding bump_up bump_unit
bump_up_lem dn set status c e hu hl h room = elim (Bool-cases (all_nines dn.lsu dn.digits)) [
  | inl yes_nines ↦
      let zeros = one_zeros_lem c in
      let nines = all yes_nines in
      rw (yes_nines, no_overflow)
        (record {
          shift = 1;
          short_shift = omega arith;
          bits = refl;
          exponent = refl;
          total = rw e (omega (arith, nines, zeros.0, pow-suc 10 c));
          same_digits = e;
          fits = rw e (omega (arith, zeros.0, pow-suc 10 c, one-le-pow c 10 (omega arith)));
          units = rw e zeros.1;
          carried = λ one. (omega (arith, nines), rw e (length-one_zeros c));
        })
  | inr not_nines ↦
      let bumped = bump_unit_lem dn hu in
      rw not_nines (record {
        shift = 0;
        short_shift = omega arith;
        bits = refl;
        exponent = plus_zero dn.exponent;
        total = omega (arith, bumped.0);
        same_digits = e;
        fits = omega (arith, bumped.0, not_all not_nines);
        units = bumped.1;
        carried = λ one. absurd (omega (arith, one));
      })
]
  where
    no_overflow : ltb_ℤ (set.emax +ℤ pos 1) (dn.exponent +ℤ pos 1 +ℤ pos dn.digits) ≡ false
    no_overflow = rw e (ground arith)

    all : all_nines dn.lsu dn.digits ≡ true → value dn.lsu + 1 ≡ 10 ^ suc c
    all t = (==_iff _ _).0 (sym (all_nines_lem dn.lsu c hu hl) ∙ rw e at t)

    not_all : all_nines dn.lsu dn.digits ≡ false → value dn.lsu + 1 ≢ 10 ^ suc c
    not_all t q =
        cc (rw e at t, all_nines_lem dn.lsu c hu hl, (==_iff (value dn.lsu + 1) (10 ^ suc c)).1 q)

    plus_zero : (z : ℤ) → z ≡ z +ℤ pos 0
    plus_zero z = ground arith

pub rounds_up-exact :
    (mode : Rounding) (negative : Bool) (q p : ℕ) → 0 < p → rounds_up mode negative q 0 p ≡ false
unfolding rounds_up
rounds_up-exact Rounding.ceiling negative q p h = ground arith
rounds_up-exact Rounding.half_even negative q p h = ground arith
rounds_up-exact mode negative q p h = ground arith

residue-zero : (x p : ℕ) (r : ℤ) → r ≡ pos 0 → IsResidue x p r → x ≡ 0
residue-zero x p r e c = ground (arith, c.below, c.half, c.above)

same-IsScaled :
    (dn : DecNumber) (c : ℕ)
    → dn.digits ≡ suc c
    → IsUnits dn.lsu
    → value dn.lsu < 10 ^ suc c
    → IsScaled (value dn.lsu + 0) (suc c) dn.exponent dn.bits dn
same-IsScaled dn c e hu h = record {
  shift = 0;
  short_shift = omega arith;
  bits = refl;
  exponent = ground arith;
  total = omega arith;
  same_digits = e;
  fits = h;
  units = hu;
  carried = λ one. absurd (omega (arith, one));
}

-- decApplyRound goes up by one exactly as the mode asks for, and never down, for a residue that is
-- not negative.
pub apply_round_lem :
    (dn : DecNumber) (set : DecContext) (r : ℤ) (status c x p : ℕ)
    → dn.digits ≡ suc c
    → IsUnits dn.lsu
    → length dn.lsu ≡ (suc c + 1) / 2
    → value dn.lsu < 10 ^ suc c
    → dn.exponent +ℤ pos 1 +ℤ pos (suc c) ≤ℤ set.emax +ℤ pos 1
    → 0 < p
    → IsResidue x p r
    → IsScaled
        (value dn.lsu + (if rounds_up set.round (is_negative dn) (value dn.lsu) x p then 1 else 0))
        (suc c)
        dn.exponent
        dn.bits
        (apply_round dn set r status).number
unfolding apply_round
apply_round_lem dn set r status c x p e hu hl h room pp res =
    let bump = round_bump-rounds_up set.round (is_negative dn) dn.lsu x p r pp res in
    elim (Bool-cases (eqb_ℤ r (pos 0))) [
      | inl z ↦
          rw
            (
              z,
              residue-zero x p r (eq_of_parts r (pos 0) ((==_iff _ _).0 z)) res,
              rounds_up-exact set.round (is_negative dn) (value dn.lsu) p pp,
            )
            (same-IsScaled dn c e hu h)
      | inr nz ↦
          rw (nz, bump)
            (elim (Bool-cases (rounds_up set.round (is_negative dn) (value dn.lsu) x p)) [
              | inl up ↦ rw up (bump_up_lem dn set _ c e hu hl h room)
              | inr not_up ↦ rw not_up (same-IsScaled dn c e hu h)
            ])
    ]

-- With no residue there is nothing to round.
pub apply_round-zero :
    (dn : DecNumber) (set : DecContext) (status : ℕ)
    → apply_round dn set (pos 0) status ≡ record { number = dn; status = status }
unfolding apply_round
apply_round-zero dn set status = refl
