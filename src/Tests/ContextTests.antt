-- ===== src/Tests/ContextTests.antt =====
-- src/decContext.c at concrete inputs.
use cpp_decimal.Base.{
  ℕ, ◌≡◌, refl, arith, bit, true, false, max, some, none, inl, inr, zero, suc, ◌<◌, ◌≢◌, ◌^◌,
  pow-suc, ◌↔◌,
}
use cpp_decimal.Base.Int.{pos, neg_ℕ}
use cpp_decimal.Context.{
  DecContext, Rounding, clear_status, restore_status, save_status, set_status,
}
use cpp_decimal.Context.{zero_status, default}
use cpp_decimal.Context.Laws.{bit-clear_status, bit-restore_status-save_status, set_status_lem}
use cpp_decimal.Context.Default.{default-IsDefaultContext, IsDefaultContext}
use cpp_decimal.Context.Laws.{default-status, IsKind}
use cpp_decimal.Context.Names.{
  status_to_string, set_status_from_string, set_status_from_string_quiet,
}
use cpp_decimal.Context.Names.RoundTrip.{set_status_from_string_quiet-status_to_string}
use cpp_decimal.Context.Names.RoundTrip.{set_status_from_string-several, IsSimple}

-- A context with the status `status`, where division by zero is trapped.
abbrev sample : ℕ → DecContext
sample status = record {
  digits = pos 9;
  emax = pos 999;
  emin = neg_ℕ 998;
  round = Rounding.half_even;
  traps = 2;
  status = status;
  clamp = false;
  extended = true;
}

bit-clear_status_example : bit 5 (clear_status (sample 0x22) 0x20).status ≡ 0
bit-clear_status_example = bit-clear_status (sample 0x22) 0x20 5 (omega arith) (omega arith)

bit-restore_status-save_status_example :
    bit 5 (restore_status (sample 0) (save_status (sample 0x22) 0x20) 0x20).status ≡ 1
bit-restore_status-save_status_example =
    bit-restore_status-save_status (sample 0x22) (sample 0) 0x20 5 (omega arith) (omega arith)

set_status_lem_example :
    ((k : ℕ) → bit k (set_status (sample 0) 2).context.status ≡ max (bit k 0) (bit k 2))
    × (((set_status (sample 0) 2).raised ≡ true) ↔ ((k : ℕ) × (bit k 2 ≡ 1) × (bit k 2 ≡ 1)))
    × ((set_status (sample 0) 2).context ≡ sample ((set_status (sample 0) 2).context.status))
set_status_lem_example = set_status_lem (sample 0) 2

default-IsDefaultContext_example : IsDefaultContext (pos 64) (default (pos 64)).context
default-IsDefaultContext_example = default-IsDefaultContext (pos 64)

default-status_example : ((default (pos 33)).raised ≡ false) ↔ IsKind (pos 33)
default-status_example = default-status (pos 33)

set_status_from_string_quiet-status_to_string_example :
    set_status_from_string_quiet (zero_status (sample 7)) (status_to_string (sample 0x20))
    ≡ some (sample 0x20)
set_status_from_string_quiet-status_to_string_example =
    set_status_from_string_quiet-status_to_string (sample 0x20) (sample 7)
      (inr (5, omega arith, refl))

three_single : (k : ℕ) → k < 14 → 3 ≢ 2 ^ k
three_single zero h e = omega (arith, e)
three_single (suc k) h e = omega (arith, e, pow-suc 2 k)

three-not_IsSimple : IsSimple 3 → ⊥
three-not_IsSimple (inl e) = omega (arith, e)
three-not_IsSimple (inr (k, h, e)) = three_single k h e

set_status_from_string-several_example :
    (set_status_from_string (sample 0) (status_to_string (sample 3)) ≡ none)
    × (set_status_from_string_quiet (sample 0) (status_to_string (sample 3)) ≡ none)
set_status_from_string-several_example =
    set_status_from_string-several (sample 3) (sample 0) three-not_IsSimple
