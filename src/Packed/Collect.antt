-- ===== src/Packed/Collect.antt =====
-- The loop of decPackedToNumber takes the units from the bytes of them.
use cpp_decimal.Base.{
  ℕ, zero, suc, ◌+◌, ◌-◌, ◌*◌, ◌/◌, ◌%◌, ◌≤◌, ◌<◌, ◌≡◌, inl, inr, refl, arith, ap, sym, ◌∙◌,
}
use cpp_decimal.Base.{List, [], ◌∷◌, Option, some, bit_and, bit_and_step, bit_and-zero, ltb, false}
use cpp_decimal.Packed.{from_left, from_right, next_cut, place, put}
use cpp_decimal.Packed.Bytes.{IsTopped, nibble_bytes}

pub right_nibble : (b : ℕ) → bit_and b 0x0f ≡ b % 16
right_nibble b = omega (
  arith,
  bit_and_step b 15,
  bit_and_step (b / 2) 7,
  bit_and_step (b / 2 / 2) 3,
  bit_and_step (b / 2 / 2 / 2) 1,
  bit_and-zero (b / 2 / 2 / 2 / 2),
)

pub left_nibble : (b : ℕ) → b < 256 → bit_and b 0xf0 ≡ b / 16 * 16
left_nibble b h = omega (arith, four, right_nibble (b / 2 / 2 / 2 / 2))
  where
    four : bit_and b 240 ≡ bit_and (b / 2 / 2 / 2 / 2) 15 * 16
    four = omega (
      arith,
      bit_and_step b 240,
      bit_and_step (b / 2) 120,
      bit_and_step (b / 2 / 2) 60,
      bit_and_step (b / 2 / 2 / 2) 30,
    )

-- The last digit of all, in either place of a unit.
place_top :
    (nib cut unit : ℕ) (rest : Option (List ℕ))
    → nib < 10
    → place nib 1 cut unit rest ≡ some (unit ∷ [])
unfolding place
place_top nib cut unit rest h = rw (digit nib h) refl
  where
    digit : (n : ℕ) → n < 10 → ltb 9 n ≡ false
    digit n h = ground (arith, h)

-- The digits before it.
place_low :
    (nib digits unit : ℕ) (rest : Option (List ℕ))
    → nib < 10
    → 2 ≤ digits
    → place nib digits 0 unit rest ≡ rest
unfolding place
place_low nib digits unit rest h k = ground (arith, h, k)

place_high :
    (nib digits unit : ℕ) (rest : Option (List ℕ)) (us : List ℕ)
    → nib < 10
    → 2 ≤ digits
    → rest ≡ some us
    → place nib digits 1 unit rest ≡ some (unit ∷ us)
unfolding place
place_high nib digits unit rest us h k e = rw e (ground (arith, h, k))

-- The byte: its nibbles, and what the loop does with them.
from_right_byte :
    (digits u v : ℕ) (us : List ℕ)
    → u < 100
    → v < 10
    → from_right digits 1 (u % 10) ((u / 10 + 16 * v) ∷ us)
      ≡ place (u / 10) digits 1 u (place v (digits - 1) 0 v (from_right (digits - 2) 1 v us))
unfolding from_right put next_cut
from_right_byte digits u v us h k =
    rw
      (
        right_nibble (u / 10 + 16 * v),
        left_nibble (u / 10 + 16 * v) (omega arith),
        low,
        high,
        whole,
      )
      refl
  where
    low : (u / 10 + 16 * v) % 16 ≡ u / 10
    low = omega arith

    high : (u / 10 + 16 * v) / 16 * 16 / 16 ≡ v
    high = omega arith

    whole : (u % 10 + u / 10 * 10) % 256 ≡ u
    whole = omega arith

pub from_right-nibble_bytes :
    (n d u : ℕ) (us : List ℕ)
    → u < 100
    → IsTopped 0 d us
    → suc d ≤ 2 * n
    → from_right (suc d) 1 (u % 10) (nibble_bytes n (u / 10) us) ≡ some (u ∷ us)
from_right-nibble_bytes zero d u us h t len = absurd (omega arith)
from_right-nibble_bytes (suc n) d u [] h t len = rw t (alone u n h)
  where
    alone :
        (u n : ℕ)
        → u < 100
        → from_right 1 1 (u % 10) (nibble_bytes (suc n) (u / 10) []) ≡ some (u ∷ [])
    alone u n h =
        let same : u / 10 + 16 * 0 ≡ u / 10 = omega arith in
        rw (sym same) (
          from_right_byte 1 u 0 (nibble_bytes n 0 []) h (omega arith)
          ∙ place_top (u / 10) 1 u _ (omega arith))
from_right-nibble_bytes (suc n) d u (v ∷ []) h (inl o) len = rw o.0 (
    from_right_byte 2 u (v % 10) (nibble_bytes n (v / 10) []) h (omega arith)
    ∙ place_high (u / 10) 2 u _ _ (omega arith) (omega arith)
        (place_top (v % 10) 0 (v % 10) _ (omega arith) ∙ ap (λ w. some (w ∷ [])) small))
  where
    small : v % 10 ≡ v
    small = omega (arith, o.2)
from_right-nibble_bytes (suc n) d u (v ∷ []) h (inr o) len = rw o.0 (
    from_right_byte 3 u (v % 10) (nibble_bytes n (v / 10) []) h (omega arith)
    ∙ place_high (u / 10) 3 u _ _ (omega arith) (omega arith) (
        place_low (v % 10) 2 (v % 10) _ (omega arith) (omega arith)
        ∙ from_right-nibble_bytes n 0 v [] o.2 refl (omega (arith, o.0))))
from_right-nibble_bytes (suc n) d u (v ∷ w ∷ us) h t len =
    from_right_byte (suc d) u (v % 10) (nibble_bytes n (v / 10) (w ∷ us)) h (omega arith)
    ∙ place_high (u / 10) (suc d) u _ _ (omega arith) (omega (arith, t.0)) (
        place_low (v % 10) (suc d - 1) (v % 10) _ (omega arith) (omega (arith, t.0))
        ∙ rw (less_two d t.0)
            (from_right-nibble_bytes n (d - 2) v (w ∷ us) t.1 t.2 (omega (arith, t.0))))
  where
    less_two : (d : ℕ) → 3 ≤ d → suc d - 2 ≡ suc (d - 2)
    less_two d h = omega arith

from_left_byte :
    (digits c u : ℕ) (us : List ℕ)
    → c < 16
    → from_left digits (c + 16 * (u % 10)) us
      ≡ place (u % 10) digits 0 (u % 10) (from_right (digits - 1) 1 (u % 10) us)
unfolding from_left put next_cut
from_left_byte digits c u us h = rw (left_nibble (c + 16 * (u % 10)) (omega arith), high) refl
  where
    high : (c + 16 * (u % 10)) / 16 * 16 / 16 ≡ u % 10
    high = omega arith

-- All the units, from the bytes of them.
pub from_left-nibble_bytes :
    (n c d u : ℕ) (us : List ℕ)
    → c < 16
    → IsTopped 0 d (u ∷ us)
    → suc d ≤ 2 * suc n
    → from_left d (c + 16 * (u % 10)) (nibble_bytes n (u / 10) us) ≡ some (u ∷ us)
from_left-nibble_bytes n c d u [] hc (inl o) len = rw o.0 (
    from_left_byte 1 c u (nibble_bytes n (u / 10) []) hc
    ∙ place_top (u % 10) 0 (u % 10) _ (omega arith)
    ∙ ap (λ w. some (w ∷ [])) small)
  where
    small : u % 10 ≡ u
    small = omega (arith, o.2)
from_left-nibble_bytes n c d u [] hc (inr o) len = rw o.0 (
    from_left_byte 2 c u (nibble_bytes n (u / 10) []) hc
    ∙ place_low (u % 10) 2 (u % 10) _ (omega arith) (omega arith)
    ∙ from_right-nibble_bytes n 0 u [] o.2 refl (omega (arith, o.0)))
from_left-nibble_bytes n c d u (v ∷ us) hc t len =
    from_left_byte d c u (nibble_bytes n (u / 10) (v ∷ us)) hc
    ∙ place_low (u % 10) d (u % 10) _ (omega arith) (omega (arith, t.0))
    ∙ rw (less_one d t.0)
        (from_right-nibble_bytes n (d - 2) u (v ∷ us) t.1 t.2 (omega (arith, t.0)))
  where
    less_one : (d : ℕ) → 3 ≤ d → d - 1 ≡ suc (d - 2)
    less_one d h = omega arith
