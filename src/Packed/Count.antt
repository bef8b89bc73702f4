-- ===== src/Packed/Count.antt =====
-- decPackedToNumber counts the digits that there are in the bytes.
use cpp_decimal.Base.{ℕ, zero, suc, ◌+◌, ◌-◌, ◌*◌, ◌/◌, ◌%◌, ◌≤◌, ◌<◌, ◌≡◌, inl, inr, refl, arith}
use cpp_decimal.Base.{List, [], ◌∷◌, Option, none, some, ◌==◌, false, if◌then◌else◌}
use cpp_decimal.Packed.{count_digits, first_byte}
use cpp_decimal.Packed.Collect.{left_nibble}
use cpp_decimal.Packed.Bytes.{IsTopped, nibble_bytes}

no_more : (n : ℕ) → first_byte (nibble_bytes n 0 []) ≡ none
unfolding first_byte
no_more zero = refl
no_more (suc n) = rw (no_more n) refl

-- The first byte: of `d` digits and a sign.
record IsFirst (d : ℕ) (r : Option (ℕ × ℕ)) : Type 0 where
  away : ℕ
  byte : ℕ
  found : r ≡ some (away, byte)
  is_byte : byte < 256
  digits : away * 2 + 1 - (if byte / 16 * 16 == 0 then 1 else 0) ≡ d
  left : 1 ≤ d

IsFirst-last :
    (b : ℕ) (bs : List ℕ)
    → first_byte bs ≡ none
    → 16 ≤ b
    → b < 256
    → IsFirst 1 (first_byte (b ∷ bs))
unfolding first_byte
IsFirst-last b bs e h k =
    rw (e, nonzero b h)
      (record {
        away = 0;
        byte = b;
        found = refl;
        is_byte = k;
        digits = ground (arith, h);
        left = omega arith;
      })
  where
    nonzero : (b : ℕ) → 16 ≤ b → (b == 0) ≡ false
    nonzero b h = ground (arith, h)

IsFirst-two :
    (b c : ℕ) (bs : List ℕ)
    → first_byte bs ≡ none
    → 1 ≤ c
    → c < 16
    → IsFirst 2 (first_byte (b ∷ c ∷ bs))
unfolding first_byte
IsFirst-two b c bs e h k =
    rw (e, nonzero c h)
      (record {
        away = 1;
        byte = c;
        found = refl;
        is_byte = omega arith;
        digits = ground (arith, k);
        left = omega arith;
      })
  where
    nonzero : (b : ℕ) → 1 ≤ b → (b == 0) ≡ false
    nonzero b h = ground (arith, h)

IsFirst-more :
    (b : ℕ) (bs : List ℕ) (d : ℕ)
    → IsFirst d (first_byte bs)
    → IsFirst (suc (suc d)) (first_byte (b ∷ bs))
unfolding first_byte
IsFirst-more b bs d f = rw (f.found) (record {
  away = suc f.away;
  byte = f.byte;
  found = refl;
  is_byte = f.is_byte;
  digits = ground (arith, f.digits, f.left);
  left = omega arith;
})

first_byte-nibble_bytes :
    (n c d u : ℕ) (us : List ℕ)
    → c < 16
    → IsTopped 1 d (u ∷ us)
    → suc d ≤ 2 * n
    → IsFirst d (first_byte (nibble_bytes n c (u ∷ us)))
first_byte-nibble_bytes zero c d u us hc t len = absurd (omega arith)
first_byte-nibble_bytes (suc n) c d u [] hc (inl o) len =
    rw (o.0, none)
      (IsFirst-last (c + 16 * (u % 10)) (nibble_bytes n 0 []) (no_more n) (omega (arith, o.1, o.2))
        (omega arith))
  where
    none : u / 10 ≡ 0
    none = omega (arith, o.2)
first_byte-nibble_bytes (suc zero) c d u [] hc (inr o) len = absurd (omega (arith, o.0))
first_byte-nibble_bytes (suc (suc n)) c d u [] hc (inr o) len = rw o.0 (
    IsFirst-two (c + 16 * (u % 10)) (u / 10) (nibble_bytes n 0 []) (no_more n) (omega (arith, o.1))
      (omega (arith, o.2)))
first_byte-nibble_bytes (suc n) c d u (v ∷ us) hc t len = rw (two d t.0) (
    IsFirst-more (c + 16 * (u % 10)) (nibble_bytes n (u / 10) (v ∷ us)) (d - 2) (
      first_byte-nibble_bytes n (u / 10) (d - 2) v us (omega (arith, t.1)) t.2
        (omega (arith, t.0))))
  where
    two : (d : ℕ) → 3 ≤ d → d ≡ suc (suc (d - 2))
    two d h = omega arith

counted : (bs : List ℕ) (d : ℕ) → IsFirst d (first_byte bs) → count_digits bs ≡ d
unfolding count_digits
counted bs d f = rw (count_digits, f.found, left_nibble f.byte f.is_byte) f.digits

-- The count is that of the digits, and 0 for a zero of one digit.
pub count_digits-nibble_bytes :
    (n c d u : ℕ) (us : List ℕ)
    → c < 16
    → IsTopped 1 d (u ∷ us)
    → suc d ≤ 2 * n
    → count_digits (nibble_bytes n c (u ∷ us)) ≡ d
count_digits-nibble_bytes n c d u us hc t len =
    counted _ d (first_byte-nibble_bytes n c d u us hc t len)

pub count_digits-zero :
    (n c : ℕ) → 1 ≤ c → c < 16 → count_digits (nibble_bytes (suc n) c (0 ∷ [])) ≡ 0
unfolding count_digits first_byte
count_digits-zero n c h k =
    let same : c + 16 * (0 % 10) ≡ c = omega arith in
    rw (no_more n, same, nonzero c h) (rw (left_nibble c (omega arith), small c k) refl)
  where
    nonzero : (b : ℕ) → 1 ≤ b → (b == 0) ≡ false
    nonzero b h = ground (arith, h)

    small : (c : ℕ) → c < 16 → c / 16 * 16 ≡ 0
    small c h = omega arith
