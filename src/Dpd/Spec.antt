-- ===== src/Dpd/Spec.antt =====
-- The rule for declets, from the bits: what the tables of src/decDPD.h tabulate.
use cpp_decimal.Base.{ℕ, ◌+◌, ◌*◌, Bool, ◌==◌, ◌&&◌, ◌||◌, not, bit, if◌then◌else◌}

-- Three digits, the most significant one first.
pub record Digits : Type 0 where
  pub first : ℕ
  pub second : ℕ
  pub third : ℕ

abbrev pub low : ℕ → ℕ → ℕ → ℕ
low a b c = 4 * a + 2 * b + c

abbrev pub high : ℕ → ℕ
high c = 8 + c

abbrev digits3 : ℕ → ℕ → ℕ → Digits
digits3 a b c = record { first = a; second = b; third = c }

-- The bits of a declet are p q r, s t u, v, w x y from the most significant one down. Where v is 0 all
-- three digits are low; otherwise w and x, and then s and t, say which digits are high.
unfoldable pub of_bits : (p q r s t u v w x y : ℕ) → Digits
of_bits p q r s t u v w x y =
    if v == 0
    then digits3 (low p q r) (low s t u) (low w x y)
    else if (w == 0) && (x == 0)
    then digits3 (low p q r) (low s t u) (high y)
    else if w == 0
    then digits3 (low p q r) (high u) (low s t y)
    else if x == 0
    then digits3 (high r) (low s t u) (low p q y)
    else if (s == 0) && (t == 0)
    then digits3 (high r) (high u) (low p q y)
    else if s == 0
    then digits3 (high r) (low p q u) (high y)
    else if t == 0
    then digits3 (low p q r) (high u) (high y)
    else digits3 (high r) (high u) (high y)

unfoldable pub declet : ℕ → Digits
declet d =
    of_bits (bit 9 d) (bit 8 d) (bit 7 d) (bit 6 d) (bit 5 d) (bit 4 d) (bit 3 d) (bit 2 d)
      (bit 1 d) (bit 0 d)

unfoldable pub number_of : Digits → ℕ
number_of a = 100 * a.first + 10 * a.second + a.third

-- One digit in four bits.
unfoldable pub packed_of : Digits → ℕ
packed_of a = 256 * a.first + 16 * a.second + a.third

-- Three high digits have a declet for each p and q; the canonical one has both at 0.
unfoldable pub is_canonical : ℕ → Bool
is_canonical d =
    not (bit 3 d == 1 && (bit 2 d == 1) && (bit 1 d == 1) && (bit 6 d == 1) && (bit 5 d == 1))
    || ((bit 9 d == 0) && (bit 8 d == 0))
