-- ===== src/Context.antt =====
-- src/decContext.h and src/decContext.c: the arithmetic context, its flags and the operations on it.
-- The build has DECEXTFLAG and DECSUBSET at 1. A pointer to a context is the context itself, and an
-- operation returns the new one. `raise(SIGFPE)` is the flag `raised` of the result: what a handler
-- does then is up to the program.
pub mod Names
pub mod Laws
pub mod Default
use cpp_decimal.Base.{ℕ, ◌+◌, ◌-◌, ◌^◌, Bool, true, false, bit_and, bit_or, complement32, has}
use cpp_decimal.Base.{if◌then◌else◌, ◌==◌, ltb}
use cpp_decimal.Base.Int.{ℤ, pos, neg_ℕ, sub_ℕ, eqb_ℤ}

-- enum rounding
pub data Rounding : Type 0 where
  ceiling up half_up half_even half_down down floor up05 max : Rounding

-- decContext. The flags `clamp` and `extended` are 0 or 1 in C.
pub record DecContext : Type 0 where
  pub digits : ℤ
  pub emax : ℤ
  pub emin : ℤ
  pub round : Rounding
  pub traps : ℕ
  pub status : ℕ
  pub clamp : Bool
  pub extended : Bool

-- The status and trap bits.
abbrev pub conversion_syntax : ℕ
conversion_syntax = 0x1

abbrev pub division_by_zero : ℕ
division_by_zero = 0x2

abbrev pub division_impossible : ℕ
division_impossible = 0x4

abbrev pub division_undefined : ℕ
division_undefined = 0x8

abbrev pub insufficient_storage : ℕ
insufficient_storage = 0x10

abbrev pub inexact : ℕ
inexact = 0x20

abbrev pub invalid_context : ℕ
invalid_context = 0x40

abbrev pub invalid_operation : ℕ
invalid_operation = 0x80

abbrev pub lost_digits : ℕ
lost_digits = 0x100

abbrev pub overflow : ℕ
overflow = 0x200

abbrev pub clamped : ℕ
clamped = 0x400

abbrev pub rounded : ℕ
rounded = 0x800

abbrev pub subnormal : ℕ
subnormal = 0x1000

abbrev pub underflow : ℕ
underflow = 0x2000

-- DEC_IEEE_754_Invalid_operation, which is also DEC_NaNs: a result becomes a quiet NaN.
abbrev pub nans : ℕ
nans = bit_or conversion_syntax (
    bit_or division_impossible (
      bit_or division_undefined
        (bit_or insufficient_storage (bit_or invalid_context invalid_operation))))

-- DEC_Errors: the conditions that are normally errors.
abbrev pub errors : ℕ
errors = bit_or division_by_zero (bit_or nans (bit_or overflow underflow))

-- What a call leaves behind: the context, and whether SIGFPE was raised.
pub record Signalled : Type 0 where
  pub context : DecContext
  pub raised : Bool

pub clear_status : DecContext → ℕ → DecContext
clear_status c mask = record c { status = bit_and c.status (complement32 mask) }

pub get_rounding : DecContext → Rounding
get_rounding c = c.round

pub get_status : DecContext → ℕ
get_status c = c.status

pub restore_status : DecContext → ℕ → ℕ → DecContext
restore_status c newstatus mask =
    let cleared = bit_and c.status (complement32 mask) in
    record c { status = bit_or cleared (bit_and mask newstatus) }

pub save_status : DecContext → ℕ → ℕ
save_status c mask = bit_and c.status mask

pub set_rounding : DecContext → Rounding → DecContext
set_rounding c newround = record c { round = newround }

unfoldable pub set_status : DecContext → ℕ → Signalled
set_status c status = record {
  context = record c { status = bit_or c.status status };
  raised = has status c.traps;
}

unfoldable pub set_status_quiet : DecContext → ℕ → DecContext
set_status_quiet c status = record c { status = bit_or c.status status }

pub test_saved_status : ℕ → ℕ → Bool
test_saved_status oldstatus mask = has oldstatus mask

pub test_status : DecContext → ℕ → Bool
test_status c mask = has c.status mask

unfoldable pub zero_status : DecContext → DecContext
zero_status c = record c { status = 0 }

-- The defaults that every kind starts from.
abbrev base_defaults : DecContext
base_defaults = record {
  digits = pos 9;
  emax = pos 999999999;
  emin = neg_ℕ 999999999;
  round = half_up;
  traps = errors;
  status = 0;
  clamp = false;
  extended = false;
}

-- The IEEE settings of one width.
abbrev ieee_defaults : ℕ → ℕ → ℕ → DecContext
ieee_defaults digits emax emin = record base_defaults {
  digits = pos digits;
  emax = pos emax;
  emin = neg_ℕ emin;
  round = half_even;
  traps = 0;
  clamp = true;
  extended = true;
}

-- decContextDefault: `kind` is 0, 32, 64 or 128; any other kind is an invalid operation.
unfoldable pub default : ℤ → Signalled
unfolding set_status
default kind =
    if eqb_ℤ kind (pos 0)
    then record { context = base_defaults; raised = false }
    else if eqb_ℤ kind (pos 32)
    then record { context = ieee_defaults 7 96 95; raised = false }
    else if eqb_ℤ kind (pos 64)
    then record { context = ieee_defaults 16 384 383; raised = false }
    else if eqb_ℤ kind (pos 128)
    then record { context = ieee_defaults 34 6144 6143; raised = false }
    else set_status base_defaults invalid_operation

-- decContextTestEndian. The machine's order and the setting DECLITEND are arguments; the message
-- that is printed unless `quiet` is left out.
pub test_endian : ℕ → ℕ → ℤ
test_endian litend declitend =
    let dle : ℕ = if ltb 1 declitend then 1 else declitend in
    if litend == declitend then pos 0 else sub_ℕ litend dle
