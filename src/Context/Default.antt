-- ===== src/Context/Default.antt =====
-- The contexts that decContextDefault gives.
use cpp_decimal.Base.{ℕ, ◌+◌, ◌-◌, ◌*◌, ◌/◌, ◌^◌, ◌≡◌, ◌⊎◌, inl, inr, refl, arith}
use cpp_decimal.Base.{Bool, true, false, ◌||◌, if◌then◌else◌}
use cpp_decimal.Base.Int.{ℤ, pos, pos_part, eqb_ℤ, neg_ℕ, ◌≤ℤ◌, ◌+ℤ◌, ◌-ℤ◌}
use cpp_decimal.Context.{DecContext, Rounding, default}

-- A context whose settings are in range.
pub record IsValidContext (c : DecContext) : Type 0 where
  pub digits_min : pos 1 ≤ℤ c.digits
  pub digits_max : c.digits ≤ℤ pos 999999999
  pub emax_min : pos 0 ≤ℤ c.emax
  pub emax_max : c.emax ≤ℤ pos 999999999
  pub emin_min : neg_ℕ 999999999 ≤ℤ c.emin
  pub emin_max : c.emin ≤ℤ pos 0
  pub fits : c.digits ≤ℤ c.emax +ℤ pos 1

-- The kinds that name the width of an IEEE 754 interchange format.
abbrev pub has_width : ℤ → Bool
has_width kind = eqb_ℤ kind (pos 32) || eqb_ℤ kind (pos 64) || eqb_ℤ kind (pos 128)

-- The parameters of the decimal interchange format of `width` bits, as IEEE 754 derives them.
pub record IsInterchange (width : ℕ) (c : DecContext) : Type 0 where
  pub digits : c.digits ≡ pos (width / 32 * 9 - 2)
  pub emax : c.emax ≡ pos (3 * 2 ^ (width / 16 + 3))
  pub emin : c.emin ≡ pos 1 -ℤ c.emax
  pub round : c.round ≡ Rounding.half_even
  pub traps : c.traps ≡ 0
  pub status : c.status ≡ 0
  pub clamp : c.clamp ≡ true
  pub extended : c.extended ≡ true

-- The ANSI X3-274 defaults: nine digits, the widest range of exponents, and traps for all errors.
pub record IsBase (known : Bool) (c : DecContext) : Type 0 where
  pub digits : c.digits ≡ pos 9
  pub emax : c.emax ≡ pos (10 ^ 9 - 1)
  pub emin : c.emin ≡ pos 0 -ℤ c.emax
  pub round : c.round ≡ Rounding.half_up
  pub traps : c.traps ≡ 0x22df
  pub status : c.status ≡ (if known then 0 else 0x80)
  pub clamp : c.clamp ≡ false
  pub extended : c.extended ≡ false

-- The settings for a kind.
abbrev pub HasSettings : ℤ → DecContext → Type 0
HasSettings kind c =
    ((has_width kind ≡ true) × IsInterchange (pos_part kind) c)
    ⊎ ((has_width kind ≡ false) × IsBase (eqb_ℤ kind (pos 0)) c)

-- The settings for a kind, which are in range.
pub record IsDefaultContext (kind : ℤ) (c : DecContext) : Type 0 where
  pub valid : IsValidContext c
  pub settings : HasSettings kind c

settings-32 : HasSettings (pos 32) (default (pos 32)).context
unfolding default
settings-32 = inl (
  refl,
  record {
    digits = refl;
    emax = refl;
    emin = refl;
    round = refl;
    traps = refl;
    status = refl;
    clamp = refl;
    extended = refl;
  },
)

settings-64 : HasSettings (pos 64) (default (pos 64)).context
unfolding default
settings-64 = inl (
  refl,
  record {
    digits = refl;
    emax = refl;
    emin = refl;
    round = refl;
    traps = refl;
    status = refl;
    clamp = refl;
    extended = refl;
  },
)

settings-128 : HasSettings (pos 128) (default (pos 128)).context
unfolding default
settings-128 = inl (
  refl,
  record {
    digits = refl;
    emax = refl;
    emin = refl;
    round = refl;
    traps = refl;
    status = refl;
    clamp = refl;
    extended = refl;
  },
)

settings-zero : HasSettings (pos 0) (default (pos 0)).context
unfolding default
settings-zero = inr (
  refl,
  record {
    digits = refl;
    emax = refl;
    emin = refl;
    round = refl;
    traps = refl;
    status = refl;
    clamp = refl;
    extended = refl;
  },
)

settings-other :
    (kind : ℤ)
    → eqb_ℤ kind (pos 0) ≡ false
    → eqb_ℤ kind (pos 32) ≡ false
    → eqb_ℤ kind (pos 64) ≡ false
    → eqb_ℤ kind (pos 128) ≡ false
    → HasSettings kind (default kind).context
unfolding default
settings-other kind a b c d =
    rw (a, b, c, d)
      (inr (
        refl,
        record {
          digits = refl;
          emax = refl;
          emin = refl;
          round = refl;
          traps = refl;
          status = refl;
          clamp = refl;
          extended = refl;
        },
      ))

kind_cases :
    (kind : ℤ)
    → (kind ≡ pos 0)
      ⊎ (kind ≡ pos 32)
      ⊎ (kind ≡ pos 64)
      ⊎ (kind ≡ pos 128)
      ⊎ ((eqb_ℤ kind (pos 0) ≡ false)
          × (eqb_ℤ kind (pos 32) ≡ false)
          × (eqb_ℤ kind (pos 64) ≡ false)
          × (eqb_ℤ kind (pos 128) ≡ false))
kind_cases kind = ground arith

default-IsValidContext : (kind : ℤ) → IsValidContext (default kind).context
unfolding default
default-IsValidContext kind = ground arith

-- The context that decContextDefault gives. For the kinds 32, 64 and 128 it has the parameters that
-- IEEE 754 derives from a width w: w/32*9-2 digits, emax at 3*2^(w/16+3) and emin at 1-emax, with
-- half-even rounding, no trap, no status, clamping and extended arithmetic. For any other kind it has 9
-- digits, exponents to 999999999 both ways, half-up rounding, the error conditions trapped, no
-- clamping and subset arithmetic, and its status is 0 for the kind 0 and invalid operation for the
-- rest. In each case 1 <= digits <= 999999999, 0 <= emax <= 999999999 and -999999999 <= emin <= 0, and
-- digits <= emax + 1.
pub default-IsDefaultContext : (kind : ℤ) → IsDefaultContext kind (default kind).context
default-IsDefaultContext kind = record {
  valid = default-IsValidContext kind;
  settings = elim (kind_cases kind) [
    | inl e ↦ rw e settings-zero
    | inr (inl e) ↦ rw e settings-32
    | inr (inr (inl e)) ↦ rw e settings-64
    | inr (inr (inr (inl e))) ↦ rw e settings-128
    | inr (inr (inr (inr e))) ↦ settings-other kind (e.0) (e.1) (e.2) (e.3)
  ];
}
