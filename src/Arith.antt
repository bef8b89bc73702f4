-- ===== src/Arith.antt =====
-- src/decNumber.c: the operators that bring two numbers together, and what they share.
pub mod Operand
pub mod Add
pub mod Compare
pub mod Multiply
pub mod Quantize
pub mod Reduce
