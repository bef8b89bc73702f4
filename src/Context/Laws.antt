-- ===== src/Context/Laws.antt =====
-- What the operations on the status word do to each bit, and which kinds decContextDefault knows.
use cpp_decimal.Base.{ℕ, zero, suc, ◌/◌, ◌%◌, ◌^◌, ◌≤◌, ◌<◌, ◌≡◌, ◌≢◌, refl, ◌↔◌, arith}
use cpp_decimal.Base.{true, false, ◌==◌, if◌then◌else◌, max, bit_and}
use cpp_decimal.Base.{bit, bit-bit_or, bit-bit_and, bit-lt, bit-complement, has, complement32}
use cpp_decimal.Base.{◌⊎◌, ap}
use native.Mathlib.Decide.{ℕ_discrete}
use cpp_decimal.Base.Int.{ℤ, pos}
use cpp_decimal.Context.{DecContext, clear_status, restore_status, save_status, set_status}
use cpp_decimal.Context.{default}

-- Clearing resets the bits of the mask and keeps the others.
pub bit-clear_status :
    (c : DecContext) (mask k : ℕ)
    → k < 32
    → mask < 2 ^ 32
    → bit k (clear_status c mask).status ≡ (if bit k mask == 1 then 0 else bit k c.status)
unfolding clear_status
bit-clear_status c mask k h fits = ground (
  arith,
  bit-bit_and k c.status (complement32 mask),
  bit-complement 32 k mask h fits,
  bit-lt k c.status,
  bit-lt k mask,
)

-- Saving the bits of a mask in one context and restoring them in another: bits of the mask come from
-- the saved context, all others stay.
pub bit-restore_status-save_status :
    (c d : DecContext) (mask k : ℕ)
    → k < 32
    → mask < 2 ^ 32
    → bit k (restore_status d (save_status c mask) mask).status
      ≡ (if bit k mask == 1 then bit k c.status else bit k d.status)
unfolding restore_status save_status
bit-restore_status-save_status c d mask k h fits = ground (
  arith,
  bit-bit_or k (bit_and d.status (complement32 mask)) (bit_and mask (bit_and c.status mask)),
  bit-bit_and k d.status (complement32 mask),
  bit-bit_and k mask (bit_and c.status mask),
  bit-bit_and k c.status mask,
  bit-complement 32 k mask h fits,
  bit-lt k c.status,
  bit-lt k d.status,
  bit-lt k mask,
)

bit-zero : (k : ℕ) → bit k 0 ≡ 0
bit-zero zero = refl
bit-zero (suc k) = bit-zero k

-- A number that is not 0 has a bit that is 1.
some_bit : (fuel n : ℕ) → n ≤ fuel → n ≢ 0 → (k : ℕ) × (bit k n ≡ 1)
some_bit zero n h ne = absurd (ne (omega arith))
some_bit (suc fuel) n h ne = elim (ℕ_discrete (n % 2) 1) [
  | yes odd ↦ (0, odd)
  | no even ↦ let rest = some_bit fuel (n / 2) (omega arith) (omega arith) in (suc rest.0, rest.1)
]

has-false : (word mask : ℕ) → has word mask ≢ true → bit_and word mask ≡ 0
has-false word mask h = ground arith

has-true : (word mask : ℕ) → has word mask ≡ true → bit_and word mask ≢ 0
has-true word mask h = ground arith

shared_bit : (word mask k : ℕ) → bit k word ≡ 1 → bit k mask ≡ 1 → bit_and word mask ≢ 0
shared_bit word mask k p q e = omega (arith, ap (bit k) e, bit-zero k, bit-bit_and k word mask)

-- A word and a mask meet exactly when they share a bit.
has_iff : (word mask : ℕ) → (has word mask ≡ true) ↔ ((k : ℕ) × (bit k word ≡ 1) × (bit k mask ≡ 1))
has_iff word mask = (
  λ h.
      let found =
        some_bit (bit_and word mask) (bit_and word mask) (omega arith) (has-true word mask h) in
      (
        found.0,
        omega (arith, found.1, bit-bit_and found.0 word mask, bit-lt found.0 word),
        omega (arith, found.1, bit-bit_and found.0 word mask, bit-lt found.0 mask),
      ),
  λ shared. ground (arith, has-false word mask, shared_bit word mask shared.0 shared.1 shared.2),
)

-- Setting status keeps the bits that are set, adds the new ones, and raises SIGFPE exactly when one
-- of the new conditions is trapped. Nothing else of the context changes.
pub set_status_lem :
    (c : DecContext) (status : ℕ)
    → ((k : ℕ) → bit k (set_status c status).context.status ≡ max (bit k c.status) (bit k status))
      × (((set_status c status).raised ≡ true)
          ↔ ((k : ℕ) × (bit k status ≡ 1) × (bit k c.traps ≡ 1)))
      × ((set_status c status).context ≡ record c { status = (set_status c status).context.status })
unfolding set_status
set_status_lem c status = (λ k. bit-bit_or k c.status status, has_iff status c.traps, refl)

-- The kinds that decContextDefault knows.
abbrev pub IsKind : ℤ → Type 0
IsKind k = (k ≡ pos 0) ⊎ (k ≡ pos 32) ⊎ (k ≡ pos 64) ⊎ (k ≡ pos 128)

-- decContextDefault raises no signal exactly for the four kinds that it knows.
pub default-status : (kind : ℤ) → ((default kind).raised ≡ false) ↔ IsKind kind
unfolding default
default-status kind = (λ h. ground arith, λ h. ground arith)
