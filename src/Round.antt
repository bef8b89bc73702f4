-- ===== src/Round.antt =====
-- src/decNumber.c: how a result gets into a number of the context's precision.
pub mod Coeff
pub mod Spec
pub mod Overflow
pub mod Apply
pub mod Correct
pub mod Finalize
pub mod Settle
