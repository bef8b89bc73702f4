-- ===== src/Dpd/Laws.antt =====
-- The tables of declets agree with the rule for declets and with each other.
use cpp_decimal.Base.{ℕ, ◌*◌, ◌<◌, ◌≡◌, refl, Bool, true, ◌==◌, not, ◌||◌, ltb, get_or, arith}
use cpp_decimal.Base.{holds_under, holds_under-at, ==_iff}
use cpp_decimal.Dpd.BinToDpd.{bin2dpd}
use cpp_decimal.Dpd.DpdToBcd.{dpd2bcd}
use cpp_decimal.Dpd.DpdToBin.{dpd2bin}
use cpp_decimal.Dpd.DpdToBinK.{dpd2bink}
use cpp_decimal.Dpd.DpdToBinM.{dpd2binm}
use cpp_decimal.Dpd.Spec.{of_bits, declet, number_of, packed_of, is_canonical}

number_check : holds_under (λ d. get_or dpd2bin d 0 == number_of (declet d)) 1024 ≡ true
unfolding holds_under of_bits declet number_of
number_check = refl

packed_check : holds_under (λ d. get_or dpd2bcd d 0 == packed_of (declet d)) 1024 ≡ true
unfolding holds_under of_bits declet packed_of
packed_check = refl

thousands_check : holds_under (λ d. get_or dpd2bink d 0 == number_of (declet d) * 1000) 1024 ≡ true
unfolding holds_under of_bits declet number_of
thousands_check = refl

millions_check :
    holds_under (λ d. get_or dpd2binm d 0 == number_of (declet d) * 1000000) 1024 ≡ true
unfolding holds_under of_bits declet number_of
millions_check = refl

back_check : holds_under (λ n. get_or dpd2bin (get_or bin2dpd n 0) 0 == n) 1000 ≡ true
unfolding holds_under
back_check = refl

canonical_check : holds_under (λ n. is_canonical (get_or bin2dpd n 0)) 1000 ≡ true
unfolding holds_under is_canonical
canonical_check = refl

ten_bits_check : holds_under (λ n. ltb (get_or bin2dpd n 0) 1024) 1000 ≡ true
unfolding holds_under
ten_bits_check = refl

forth_check :
    holds_under (λ d. not (is_canonical d) || (get_or bin2dpd (get_or dpd2bin d 0) 0 == d)) 1024
    ≡ true
unfolding holds_under is_canonical
forth_check = refl

-- The decoding tables on any declet: DPD2BIN has the number of its three digits, DPD2BINK and DPD2BINM
-- that number in thousands and in millions, and DPD2BCD the digits in four bits each.
pub decoding_lem :
    (d : ℕ)
    → d < 1024
    → (get_or dpd2bin d 0 ≡ number_of (declet d))
      × (get_or dpd2bink d 0 ≡ number_of (declet d) * 1000)
      × (get_or dpd2binm d 0 ≡ number_of (declet d) * 1000000)
      × (get_or dpd2bcd d 0 ≡ packed_of (declet d))
decoding_lem d h = (
  at (λ d. get_or dpd2bin d 0) (λ d. number_of (declet d)) number_check,
  at (λ d. get_or dpd2bink d 0) (λ d. number_of (declet d) * 1000) thousands_check,
  at (λ d. get_or dpd2binm d 0) (λ d. number_of (declet d) * 1000000) millions_check,
  at (λ d. get_or dpd2bcd d 0) (λ d. packed_of (declet d)) packed_check,
)
  where
    at : (f g : ℕ → ℕ) → holds_under (λ d. f d == g d) 1024 ≡ true → f d ≡ g d
    at f g check = (==_iff (f d) (g d)).0 (holds_under-at (λ d. f d == g d) 1024 d h check)

-- BIN2DPD on any number below 1000: its declet has ten bits, is canonical, and DPD2BIN gives the
-- number back.
pub dpd2bin-bin2dpd :
    (n : ℕ)
    → n < 1000
    → let d = get_or bin2dpd n 0 in (d < 1024) × (is_canonical d ≡ true) × (get_or dpd2bin d 0 ≡ n)
dpd2bin-bin2dpd n h = (
  ground (arith, holds_under-at (λ n. ltb (get_or bin2dpd n 0) 1024) 1000 n h ten_bits_check),
  holds_under-at (λ n. is_canonical (get_or bin2dpd n 0)) 1000 n h canonical_check,
  (==_iff _ _).0
      (holds_under-at (λ n. get_or dpd2bin (get_or bin2dpd n 0) 0 == n) 1000 n h back_check),
)

-- A canonical declet comes back from its number.
pub bin2dpd-dpd2bin :
    (d : ℕ) → d < 1024 → is_canonical d ≡ true → get_or bin2dpd (get_or dpd2bin d 0) 0 ≡ d
bin2dpd-dpd2bin d h c =
    let check =
      holds_under-at (λ d. not (is_canonical d) || (get_or bin2dpd (get_or dpd2bin d 0) 0 == d))
        1024 d h forth_check in
    (==_iff _ _).0 (given check c)
  where
    given : {a b : Bool} → not a || b ≡ true → a ≡ true → b ≡ true
    given h e = ground (arith, h, e)
