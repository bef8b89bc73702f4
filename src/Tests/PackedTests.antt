-- ===== src/Tests/PackedTests.antt =====
-- Packed decimal at concrete inputs.
use cpp_decimal.Base.{arith}
use cpp_decimal.Packed.RoundTrip.{IsUnpacked, to_number-from_number}
use cpp_decimal.Tests.ArithTests.{debit, debit-IsFinite}

-- -1.23 in three bytes.
to_number-from_number_example : IsUnpacked 3 debit
to_number-from_number_example =
    to_number-from_number 3 debit debit-IsFinite (omega arith) (omega arith) (omega arith)
