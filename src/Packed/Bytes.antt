-- ===== src/Packed/Bytes.antt =====
-- The bytes of a coefficient, and that the loop of decPackedFromNumber gives them.
use cpp_decimal.Base.{
  ℕ, zero, suc, ◌+◌, ◌-◌, ◌*◌, ◌/◌, ◌%◌, ◌^◌, ◌≤◌, ◌<◌, ◌≡◌, ◌⊎◌, inl, inr, refl, arith, sym, ◌∙◌,
}
use cpp_decimal.Base.{List, [], ◌∷◌, bit_or, bit_or-disjoint}
use cpp_decimal.Packed.{Source, refill, take_digit, pack}
use cpp_decimal.Number.Int32.{x10}
use cpp_decimal.Units.{u8}

-- Bytes from the last one on: `c` is the right nibble of the first byte that is listed.
abbrev pub nibble_bytes : ℕ → ℕ → List ℕ → List ℕ
nibble_bytes zero c us = []
nibble_bytes (suc n) c [] = c ∷ nibble_bytes n 0 []
nibble_bytes (suc n) c (u ∷ us) = (c + 16 * (u % 10)) ∷ nibble_bytes n (u / 10) us

-- Units of `d` digits, the top digit of one that has one only at least `least`.
abbrev pub IsTopped : ℕ → ℕ → List ℕ → Type 0
IsTopped least d [] = d ≡ 0
IsTopped least d (u ∷ []) = ((d ≡ 1) × (least ≤ u) × (u < 10)) ⊎ ((d ≡ 2) × (10 ≤ u) × (u < 100))
IsTopped least d (u ∷ v ∷ us) = (3 ≤ d) × (u < 100) × IsTopped least (d - 2) (v ∷ us)

-- A byte of two nibbles.
byte : (c k : ℕ) → c < 16 → k < 10 → u8 (bit_or c (k * 2 ^ 4)) ≡ c + 16 * k
byte c k h l = omega (arith, bit_or-disjoint 4 c k h)

-- The two digits of a unit, the lower one first.
low_digit :
    (u n : ℕ) (us : List ℕ) (s : Source)
    → refill s ≡ record { u = u; cut = 2; rest = us }
    → u < 100
    → take_digit s (suc n)
      ≡ record { nib = u % 10; source = record { u = u / 10; cut = 1; rest = us }; indigs = n }
unfolding take_digit
low_digit u n us s e h = rw (e, tenth, last) refl
  where
    tenth : u * 6554 / 65536 ≡ u / 10
    tenth = omega arith

    last : u - x10 (u / 10) ≡ u % 10
    last = omega arith

high_digit :
    (t n : ℕ) (us : List ℕ)
    → t < 10
    → take_digit (record { u = t; cut = 1; rest = us }) (suc n)
      ≡ record { nib = t; source = record { u = 0; cut = 0; rest = us }; indigs = n }
unfolding take_digit refill
high_digit t n us h = rw (tenth, last) refl
  where
    tenth : t * 6554 / 65536 ≡ 0
    tenth = omega arith

    last : t - x10 0 ≡ t
    last = omega arith

pack_none : (n c : ℕ) (s : Source) → c < 16 → pack n s c 0 ≡ nibble_bytes n c []
unfolding pack take_digit
pack_none zero c s h = refl
pack_none (suc n) c s h =
    let last : u8 (bit_or c (0 * 2 ^ 4)) ≡ c = omega (arith, byte c 0 h (omega arith)) in
    rw (last, pack_none n 0 s (omega arith)) refl

-- A unit of two digits.
pack_unit :
    (n c u : ℕ) (us : List ℕ) (d : ℕ) (s : Source)
    → refill s ≡ record { u = u; cut = 2; rest = us }
    → u < 100
    → c < 16
    → pack (suc n) s c (suc (suc d))
      ≡ (c + 16 * (u % 10)) ∷ pack n (record { u = 0; cut = 0; rest = us }) (u / 10) d
unfolding pack
pack_unit n c u us d s e h k =
    rw
      (
        low_digit u (suc d) us s e h,
        high_digit (u / 10) d us (omega arith),
        byte c (u % 10) k (omega arith),
        whole,
      )
      refl
  where
    whole : u8 (u / 10) ≡ u / 10
    whole = omega arith

take_none : (s : Source) → take_digit s 0 ≡ record { nib = 0; source = s; indigs = 0 }
unfolding take_digit
take_none s = refl

no_bytes : (s : Source) (c d : ℕ) → pack 0 s c d ≡ []
unfolding pack
no_bytes s c d = refl

pub IsTopped-at :
    (least : ℕ) {m n : ℕ} (us : List ℕ) → m ≡ n → IsTopped least m us → IsTopped least n us
IsTopped-at least us e h = rw (sym e) h

-- A unit of one digit.
pack_last :
    (n c u : ℕ) (s : Source)
    → refill s ≡ record { u = u; cut = 2; rest = [] }
    → u < 10
    → c < 16
    → pack (suc n) s c 1 ≡ (c + 16 * (u % 10)) ∷ nibble_bytes n (u / 10) []
unfolding pack
pack_last n c u s e h k =
    let none : u / 10 ≡ 0 = omega arith in
    rw
      (
        low_digit u 0 [] s e (omega arith),
        byte c (u % 10) k (omega arith),
        none,
        take_none (record { u = 0; cut = 1; rest = [] }),
      )
      (rw (pack_none n 0 (record { u = 0; cut = 1; rest = [] }) (omega arith)) refl)

pub pack-nibble_bytes :
    (n c u : ℕ) (us : List ℕ) (d : ℕ) (s : Source)
    → refill s ≡ record { u = u; cut = 2; rest = us }
    → IsTopped 0 d (u ∷ us)
    → c < 16
    → pack n s c d ≡ nibble_bytes n c (u ∷ us)
unfolding refill
pack-nibble_bytes zero c u us d s e h k = no_bytes s c d
pack-nibble_bytes (suc n) c u [] d s e (inl o) k = rw o.0 (pack_last n c u s e o.2 k)
pack-nibble_bytes (suc n) c u [] d s e (inr t) k = rw t.0 (
    pack_unit n c u [] 0 s e t.2 k
    ∙ rw (pack_none n (u / 10) (record { u = 0; cut = 0; rest = [] }) (omega arith)) refl)
pack-nibble_bytes (suc n) c u (v ∷ us) zero s e h k = absurd (omega (arith, h.0))
pack-nibble_bytes (suc n) c u (v ∷ us) (suc zero) s e h k = absurd (omega (arith, h.0))
pack-nibble_bytes (suc n) c u (v ∷ us) (suc (suc d)) s e h k =
    pack_unit n c u (v ∷ us) d s e h.1 k
    ∙ rw
        (pack-nibble_bytes n (u / 10) v us d (record { u = 0; cut = 0; rest = v ∷ us }) refl
          (IsTopped-at 0 (v ∷ us) (less_two d) h.2) (omega (arith, h.1)))
        refl
  where
    less_two : (d : ℕ) → suc (suc d) - 2 ≡ d
    less_two d = omega arith
