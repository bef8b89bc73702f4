-- ===== src/Tests/TrimTests.antt =====
-- Trimming at concrete inputs.
use cpp_decimal.Base.{refl, true}
use cpp_decimal.Number.Trim.{trim}
use cpp_decimal.Number.Trim.Bare.{IsTrimmed, trim-IsTrimmed}
use cpp_decimal.Tests.ArithTests.{five, padded, padded-IsFinite}

-- 1.30 is 1.3.
trim-IsTrimmed_example : IsTrimmed padded (trim padded five true true)
trim-IsTrimmed_example = trim-IsTrimmed padded five true padded-IsFinite refl refl
