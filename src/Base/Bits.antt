-- ===== src/Base/Bits.antt =====
-- Bit masks on words: the digit laws of `bit_and` and `bit_or`, bit by bit.
use Prim.Native.Nat.{ℕ, zero, suc, ◌+◌, ◌-◌, ◌*◌, ◌/◌, ◌%◌, ◌^◌, ◌≤◌, ◌<◌, min, max}
use Prim.Native.Nat.{
  bit_and, bit_or, digits, bitwise, bit_and-bitwise, bit_or-bitwise, bit_xor, bit_xor-bitwise,
  differ,
}
use mathlib.Core.Path.{◌≡◌, refl, ap}
use mathlib.Core.Bool.{Bool, true, ◌&&◌}
use native.Mathlib.Nat.{pow-suc, one-le-pow}
use native.Mathlib.Decide.{ℕ_discrete}
use native.Mathlib.Omega.{arith}

-- Bit `k` of `x`, as a number.
abbrev pub bit : ℕ → ℕ → ℕ
bit zero x = x % 2
bit (suc k) x = bit k (x / 2)

-- ~m in a `uint32_t`.
abbrev pub complement32 : ℕ → ℕ
complement32 m = 2 ^ 32 - 1 - m

-- ~m in a `uint8_t`.
abbrev pub complement8 : ℕ → ℕ
complement8 m = 255 - m

-- A word has one of the bits of a mask.
abbrev pub has : ℕ → ℕ → Bool
has word mask = elim (bit_and word mask) [ zero ↦ Bool.false | suc n ↦ true ]

-- A binary operation digit by digit, as the native ones are defined: with more fuel than its first
-- operand it does not change, and so it unrolls by one digit.
module _ (low : ℕ → ℕ) (digit : ℕ → ℕ → ℕ) where
  enough_fuel :
      (bound fuel x y : ℕ)
      → x ≤ fuel
      → x ≤ bound
      → digits low digit fuel x y ≡ bitwise low digit x y
  enough_fuel bound zero zero y p q = refl
  enough_fuel bound (suc fuel) zero y p q = refl
  enough_fuel bound zero (suc x) y p q = elim p [ ]
  enough_fuel zero (suc fuel) (suc x) y p q = elim q [ ]
  enough_fuel (suc bound) (suc fuel) (suc x) y p q =
      let here = enough_fuel bound fuel (suc x / 2) (y / 2) (omega arith) (omega arith) in
      let there = enough_fuel bound x (suc x / 2) (y / 2) (omega arith) (omega arith) in
      cc (here, there)

  unroll :
      (x y : ℕ)
      → 0 < x
      → bitwise low digit x y ≡ bitwise low digit (x / 2) (y / 2) * 2 + digit (x % 2) (y % 2)
  unroll zero y h = elim h [ ]
  unroll (suc x) y h =
      let rest = enough_fuel x x (suc x / 2) (y / 2) (omega arith) (omega arith) in cc rest

pub bit_or_step : (a b : ℕ) → bit_or a b ≡ bit_or (a / 2) (b / 2) * 2 + max (a % 2) (b % 2)
bit_or_step zero b = omega (arith, bit_or-bitwise 0 b, bit_or-bitwise 0 (b / 2))
bit_or_step (suc a) b = omega (
  arith,
  bit_or-bitwise (suc a) b,
  bit_or-bitwise (suc a / 2) (b / 2),
  unroll (λ y. y) max (suc a) b (omega arith),
)

pub bit_and_step : (a b : ℕ) → bit_and a b ≡ bit_and (a / 2) (b / 2) * 2 + min (a % 2) (b % 2)
bit_and_step zero b = omega (arith, bit_and-bitwise 0 b, bit_and-bitwise 0 (b / 2))
bit_and_step (suc a) b =
    let step = unroll (λ y. 0) min (suc a) b (omega arith) in
    omega (arith, bit_and-bitwise (suc a) b, bit_and-bitwise (suc a / 2) (b / 2), step)

pub zero-bit_or : (b : ℕ) → bit_or 0 b ≡ b
zero-bit_or b = bit_or-bitwise 0 b

zero_mask : (bound n : ℕ) → n ≤ bound → bit_and n 0 ≡ 0
zero_mask zero n h = let e : n ≡ 0 = omega arith in rw e refl
zero_mask (suc bound) n h = elim (ℕ_discrete n 0) [
  | yes e ↦ rw e refl
  | no ne ↦
      let rest = zero_mask bound (n / 2) (omega arith) in omega (arith, rest, bit_and_step n 0)
]

pub bit_and-zero : (a : ℕ) → bit_and a 0 ≡ 0
bit_and-zero a = zero_mask a a (omega arith)

-- A mask of one bit.
pub bit_and-power : (k a : ℕ) → bit_and a (2 ^ k) ≡ bit k a * 2 ^ k
bit_and-power zero a = omega (arith, bit_and_step a 1, bit_and-zero (a / 2))
bit_and-power (suc k) a =
    let half : 2 ^ suc k / 2 ≡ 2 ^ k = omega (arith, pow-suc 2 k) in
    let rest : bit_and (a / 2) (2 ^ suc k / 2) ≡ bit k (a / 2) * 2 ^ k =
      rw half (bit_and-power k (a / 2)) in
    omega (
      arith,
      rest,
      bit_and_step a (2 ^ suc k),
      pow-suc 2 k,
      ap (λ (t : ℕ). bit k (a / 2) * t) (pow-suc 2 k),
    )

pub bit_and-one : (a : ℕ) → bit_and a 1 ≡ a % 2
bit_and-one a = omega (arith, bit_and_step a 1, bit_and-zero (a / 2))

half-bit_or : (a b : ℕ) → bit_or a b / 2 ≡ bit_or (a / 2) (b / 2)
half-bit_or a b = omega (arith, bit_or_step a b)

half-bit_and : (a b : ℕ) → bit_and a b / 2 ≡ bit_and (a / 2) (b / 2)
half-bit_and a b = omega (arith, bit_and_step a b)

pub bit-bit_or : (k a b : ℕ) → bit k (bit_or a b) ≡ max (bit k a) (bit k b)
bit-bit_or zero a b = omega (arith, bit_or_step a b)
bit-bit_or (suc k) a b = rw half-bit_or (bit-bit_or k (a / 2) (b / 2))

pub bit-bit_and : (k a b : ℕ) → bit k (bit_and a b) ≡ min (bit k a) (bit k b)
bit-bit_and zero a b = omega (arith, bit_and_step a b)
bit-bit_and (suc k) a b = rw half-bit_and (bit-bit_and k (a / 2) (b / 2))

-- A mask of `w` bits on a union.
pub bit_and-bit_or :
    (w a b m : ℕ) → m < 2 ^ w → bit_and (bit_or a b) m ≡ bit_or (bit_and a m) (bit_and b m)
bit_and-bit_or zero a b m h =
    let e : m ≡ 0 = omega arith in
    rw (e, bit_and-zero (bit_or a b), bit_and-zero a, bit_and-zero b) refl
bit_and-bit_or (suc w) a b m h =
    let ih = bit_and-bit_or w (a / 2) (b / 2) (m / 2) (omega (arith, pow-suc 2 w)) in
    let left : bit_and (bit_or a b / 2) (m / 2) ≡ bit_and (bit_or (a / 2) (b / 2)) (m / 2) =
      rw (half-bit_or a b) refl in
    let right : bit_or (bit_and a m / 2) (bit_and b m / 2)
        ≡ bit_or (bit_and (a / 2) (m / 2)) (bit_and (b / 2) (m / 2)) =
      rw (half-bit_and a m, half-bit_and b m) refl in
    omega (
      arith,
      ih,
      left,
      right,
      bit_and_step (bit_or a b) m,
      bit_or_step a b,
      bit_or_step (bit_and a m) (bit_and b m),
      bit_and_step a m,
      bit_and_step b m,
    )

xor_digit : (a b : ℕ) → a < 2 → b < 2 → differ a b ≡ (a + b) % 2
xor_digit zero zero h k = refl
xor_digit zero (suc zero) h k = refl
xor_digit (suc zero) zero h k = refl
xor_digit (suc zero) (suc zero) h k = refl
xor_digit zero (suc (suc b)) h k = absurd (omega arith)
xor_digit (suc zero) (suc (suc b)) h k = absurd (omega arith)
xor_digit (suc (suc a)) b h k = absurd (omega arith)

pub bit_xor_step : (a b : ℕ) → bit_xor a b ≡ bit_xor (a / 2) (b / 2) * 2 + (a % 2 + b % 2) % 2
bit_xor_step zero b = omega (arith, bit_xor-bitwise 0 b, bit_xor-bitwise 0 (b / 2))
bit_xor_step (suc a) b =
    let step = unroll (λ y. y) differ (suc a) b (omega arith) in
    let digit = xor_digit (suc a % 2) (b % 2) (omega arith) (omega arith) in
    omega (arith, bit_xor-bitwise (suc a) b, bit_xor-bitwise (suc a / 2) (b / 2), step, digit)

half-bit_xor : (a b : ℕ) → bit_xor a b / 2 ≡ bit_xor (a / 2) (b / 2)
half-bit_xor a b = omega (arith, bit_xor_step a b)

pub bit-bit_xor : (k a b : ℕ) → bit k (bit_xor a b) ≡ (bit k a + bit k b) % 2
bit-bit_xor zero a b = omega (arith, bit_xor_step a b)
bit-bit_xor (suc k) a b = rw half-bit_xor (bit-bit_xor k (a / 2) (b / 2))

pub bit-lt : (k x : ℕ) → bit k x < 2
bit-lt zero x = omega arith
bit-lt (suc k) x = bit-lt k (x / 2)

-- A flipped word: each of its `w` bits is the other one.
pub bit-complement : (w k m : ℕ) → k < w → m < 2 ^ w → bit k (2 ^ w - 1 - m) + bit k m ≡ 1
bit-complement zero k m h fits = absurd (omega arith)
bit-complement (suc w) zero m h fits = omega (arith, pow-suc 2 w, one-le-pow w 2)
bit-complement (suc w) (suc k) m h fits =
    let halves : (2 ^ suc w - 1 - m) / 2 ≡ 2 ^ w - 1 - m / 2 = omega (arith, pow-suc 2 w) in
    rw halves (bit-complement w k (m / 2) (omega arith) (omega (arith, pow-suc 2 w)))

-- A test that holds for the numbers under a bound, found by running it.
unfoldable pub holds_under : (ℕ → Bool) → ℕ → Bool
holds_under test zero = true
holds_under test (suc bound) = holds_under test bound && test bound

pub holds_under-at :
    (test : ℕ → Bool) (bound k : ℕ) → k < bound → holds_under test bound ≡ true → test k ≡ true
unfolding holds_under
holds_under-at test zero k h run = elim h [ ]
holds_under-at test (suc bound) k h run = elim (ℕ_discrete k bound) [
  | yes e ↦ rw e (ground arith)
  | no ne ↦ holds_under-at test bound k (omega arith) (ground arith)
]

-- Bits that do not meet.
pub bit_or-disjoint : (w a k : ℕ) → a < 2 ^ w → bit_or a (k * 2 ^ w) ≡ a + k * 2 ^ w
bit_or-disjoint zero a k h =
    let none : a ≡ 0 = omega arith in rw none (omega (arith, zero-bit_or (k * 2 ^ 0)))
bit_or-disjoint (suc w) a k h =
    let half : k * 2 ^ suc w / 2 ≡ k * 2 ^ w =
      omega (arith, ap (λ (t : ℕ). k * t) (pow-suc 2 w), twice k (2 ^ w)) in
    omega (
      arith,
      bit_or_step a (k * 2 ^ suc w),
      ap (bit_or (a / 2)) half,
      bit_or-disjoint w (a / 2) k (omega (arith, pow-suc 2 w)),
      half,
      ap (λ (t : ℕ). k * t) (pow-suc 2 w),
      twice k (2 ^ w),
    )
  where
    twice : (k p : ℕ) → k * (p * 2) ≡ 2 * (k * p)
    twice k p = grind arith
