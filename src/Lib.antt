-- ===== src/Lib.antt =====
-- The C core of CppDecimal: decimal arithmetic on numbers of any precision.
--
-- The program. `src/decContext.c` keeps the arithmetic context: precision, exponent range, rounding
-- mode, traps and status. `src/decNumber.c` keeps a number as digits, exponent, indicator bits and an
-- array of units, and has the arithmetic; each operation works on unit arrays, brings the result into
-- the context's precision by decSetCoeff, decApplyRound and decFinalize, and hands the conditions it met
-- to decContextSetStatus by way of decStatus.
--
-- The files.
-- Base: shared names, Boolean tests, bit masks, lists and integers.
-- Context: `decContext.h` and `decContext.c`. A DecContext is the struct; decContextSetStatus is
-- `set_status`, and so on. A raised signal is the flag `raised` of the result. Names has the functions
-- that print and read condition names, Default the contexts of decContextDefault.
-- Units: the unit arrays. The build has DECDPUN at 2, so a unit is below 100. AddSub is decUnitAddSub,
-- Compare is decUnitCompare, Shift is decShiftToMost and decShiftToLeast; `value` is the number that an array stands for.
-- Number: the struct decNumber and its tests. Compare is decCompare, Digits is decGetDigits, and Int32
-- has the conversions to and from 32-bit integers; its unit loop has fuel for five units, which hold
-- any of them. GetInt is decGetInt, Trim is decTrim. Sign has the copies that change a sign, Class has the classes. Nan
-- is decNaNs and decDecap, which pass a NaN operand on, and decStatus, which ends each operator.
-- Packed: `src/decPacked.h` and `src/decPacked.c`, packed decimal; arrays of bytes are listed from the
-- last one, which has the sign.
-- Dpd: the tables of `src/decDPD.h`, one file each, and Spec, the rule for declets.
-- Round: Coeff is decSetCoeff and decCopyFit, Overflow is decSetOverflow and decSetMaxValue, Apply is
-- decApplyRound, Spec says what rounding means, and Correct joins them. Finalize has decSetSubnormal,
-- decFinalize and decFinish, which end an operation.
-- Arith: Operand is decRoundOperand. Add is decAddOp with the operators on it: Zero has its branches
-- for special operands, zeros and an operand too small to count, Units has the fast path and the
-- aligned sum. Multiply is decMultiplyOp: Chunks has its fast path, with 64-bit sums, and Units the
-- other one. Compare is decCompareOp with its operators. Quantize is decQuantizeOp, with quantize and
-- rescale, and Reduce is decNumberReduce. `allocated` stands for `malloc`, and `overlap` for a result in the place of the operand
-- that is shifted; elsewhere an operand is read before its place is written.
-- Tests: the theorems at concrete inputs.
--
-- Conventions. Arrays are lists, least significant unit first, of the units in use; a loop over pointers
-- is a recursion on the list, which ends with the list, so that no fuel is needed. A 32-bit `Int` is an
-- integer without bound. Where the difference or the sum of two exponents can leave 32 bits it wraps, in
-- decCompare, decTrim, decQuantizeOp and decMultiplyOp; a signed overflow is undefined in C, and the wrap
-- is what the usual machine does. The padding of decAddOp, and the array length that decUnitCompare
-- takes from its exponent, do not wrap in the model: the theorems on decAddOp and decCompareOp bound the
-- exponents. What is stored into a unit is taken modulo 256. `malloc` is an argument
-- that says whether it succeeds. DECSUBSET and DECEXTFLAG are 1, DECCHECK and DECTRACE are 0.
--
-- Not modelled: the C++ classes, which forward to these functions; the operators other than addition,
-- multiplication, comparison, quantize, rescale and reduce, the conversions to and from text, the interchange
-- formats and the fixed-size types, which are other parts of the library; input and output.
pub mod Base
pub mod Context
pub mod Units
pub mod Number
pub mod Round
pub mod Dpd
pub mod Packed
pub mod Arith
pub mod Tests
