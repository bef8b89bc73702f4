-- ===== src/Tests.antt =====
-- The theorems at concrete inputs, and runs of the code models.
mod ContextTests
mod UnitTests
mod RoundTests
mod NumberTests
mod IntTests
mod DpdTests
mod SignTests
mod ArithTests
mod MultiplyTests
mod PackedTests
mod QuantizeTests
mod TrimTests
