-- ===== src/Context/Names.antt =====
-- src/decContext.c: the names of the conditions, printed and read.
pub mod RoundTrip
use text.Mathlib.Text.{◌==◌ as str_eq}
use Prim.Native.String.{String}
use cpp_decimal.Base.{ℕ, ◌≡◌, ◌≢◌, refl, Option, none, some, arith, if◌then◌else◌, ◌==◌, bit_or}
use cpp_decimal.Context.{DecContext, Signalled, set_status, set_status_quiet, zero_status}
use cpp_decimal.Context.{conversion_syntax, division_by_zero, division_impossible}
use cpp_decimal.Context.{division_undefined, insufficient_storage, inexact, invalid_context}
use cpp_decimal.Context.{invalid_operation, lost_digits, overflow, clamped, rounded, subnormal}
use cpp_decimal.Context.{underflow}
use cpp_decimal.Base.{Bool, false}

-- decContextStatusToString, as a function of the status word.
pub status_name : ℕ → String
status_name status =
    if status == invalid_operation
    then "Invalid operation"
    else if status == division_by_zero
    then "Division by zero"
    else if status == overflow
    then "Overflow"
    else if status == underflow
    then "Underflow"
    else if status == inexact
    then "Inexact"
    else if status == division_impossible
    then "Division impossible"
    else if status == division_undefined
    then "Division undefined"
    else if status == rounded
    then "Rounded"
    else if status == clamped
    then "Clamped"
    else if status == subnormal
    then "Subnormal"
    else if status == conversion_syntax
    then "Conversion syntax"
    else if status == insufficient_storage
    then "Insufficient storage"
    else if status == invalid_context
    then "Invalid context"
    else if status == lost_digits
    then "Lost digits"
    else if status == 0
    then "No status"
    else "Multiple status"

pub status_to_string : DecContext → String
status_to_string c = status_name c.status

-- What the chain of `strcmp` finds: a condition to set, the name of no condition, or neither.
pub data NameMatch : Type 0 where
  condition : ℕ → NameMatch
  no_status unknown : NameMatch

pub match_name : String → NameMatch
match_name string =
    if str_eq string "Conversion syntax"
    then condition conversion_syntax
    else if str_eq string "Division by zero"
    then condition division_by_zero
    else if str_eq string "Division impossible"
    then condition division_impossible
    else if str_eq string "Division undefined"
    then condition division_undefined
    else if str_eq string "Inexact"
    then condition inexact
    else if str_eq string "Insufficient storage"
    then condition insufficient_storage
    else if str_eq string "Invalid context"
    then condition invalid_context
    else if str_eq string "Invalid operation"
    then condition invalid_operation
    else if str_eq string "Lost digits"
    then condition lost_digits
    else if str_eq string "Overflow"
    then condition overflow
    else if str_eq string "Clamped"
    then condition clamped
    else if str_eq string "Rounded"
    then condition rounded
    else if str_eq string "Subnormal"
    then condition subnormal
    else if str_eq string "Underflow"
    then condition underflow
    else if str_eq string "No status"
    then no_status
    else unknown

-- `none` is the NULL of a name that stands for no single condition.
pub set_status_from_string : DecContext → String → Option Signalled
set_status_from_string c string = elim (match_name string) [
  | condition status ↦ some (set_status c status)
  | no_status ↦ some (record { context = c; raised = false })
  | unknown ↦ none
]

pub set_status_from_string_quiet : DecContext → String → Option DecContext
set_status_from_string_quiet c string = elim (match_name string) [
  | condition status ↦ some (set_status_quiet c status)
  | no_status ↦ some c
  | unknown ↦ none
]
