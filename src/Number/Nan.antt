-- ===== src/Number/Nan.antt =====
-- src/decNumber.c: decDecap, decNaNs and decStatus. An operand that is a NaN gives a quiet NaN with its
-- sign and its payload, cut to the precision; an error status makes the result a quiet NaN.
pub mod Payload
pub mod Cut
pub mod Laws
use cpp_decimal.Base.{ℕ, zero, suc, ◌+◌, ◌-◌, ◌*◌, ◌%◌, List, [], ◌∷◌, Bool, true, false}
use cpp_decimal.Base.{
  leb, ltb, ◌==◌, has, bit_or, bit_and, complement8, complement32, if◌then◌else◌, Option, none,
  some,
}
use cpp_decimal.Base.Int.{ℤ, pos, pos_part, leb_ℤ}
use cpp_decimal.Context.{DecContext, Signalled, invalid_operation, nans, set_status}
use cpp_decimal.Number.{DecNumber, nan_bit, snan_bit, zero_number}
use cpp_decimal.Number.Digits.{recount}
use cpp_decimal.Number.Sign.{copy}
use cpp_decimal.Round.Overflow.{Settled}
use cpp_decimal.Round.Coeff.{copy_units}
use cpp_decimal.Units.{d2u}

-- DEC_sNaN, the local status of a signalling NaN.
abbrev pub snan_status : ℕ
snan_status = 0x40000000

-- The units of `count` digits; in the most significant unit the digits on the left are cleared.
pub cap_units : ℕ → List ℕ → List ℕ
cap_units zero us = []
cap_units (suc count) [] = []
cap_units (suc zero) (u ∷ us) = u % 10 ∷ []
cap_units (suc (suc zero)) (u ∷ us) = u ∷ []
cap_units (suc (suc (suc count))) (u ∷ us) = u ∷ cap_units (suc count) us

pub decap : DecNumber → ℕ → DecNumber
decap dn drop =
    if leb dn.digits drop
    then record dn { digits = 1; lsu = 0 ∷ [] }
    else recount (record dn { lsu = cap_units (dn.digits - drop) dn.lsu })

-- The source of the NaN.
pub nan_source : DecNumber → Option DecNumber → DecNumber
nan_source lhs none = lhs
nan_source lhs (some rhs) =
    if has lhs.bits snan_bit
    then lhs
    else if has rhs.bits snan_bit
    then rhs
    else if has lhs.bits nan_bit
    then lhs
    else rhs

pub nan_status : DecNumber → Option DecNumber → ℕ → ℕ
nan_status lhs none status =
    if has lhs.bits snan_bit then bit_or status (bit_or invalid_operation snan_status) else status
nan_status lhs (some rhs) status =
    if has lhs.bits snan_bit
    then bit_or status (bit_or invalid_operation snan_status)
    else if has rhs.bits snan_bit
    then bit_or status (bit_or invalid_operation snan_status)
    else status

-- A payload of more digits than the precision: a safe number of units is copied, and cut.
pub cut_payload : DecNumber → ℕ → DecNumber
cut_payload source digits =
    let safe = record source {
      digits = d2u digits * 2;
      lsu = copy_units (d2u digits * 2) source.lsu;
    } in
    if ltb digits safe.digits then decap safe (safe.digits - digits) else safe

pub propagate_nan : DecNumber → ℕ → DecNumber
propagate_nan source digits =
    let res = if leb source.digits digits then copy source else cut_payload source digits in
    record res { bits = bit_or (bit_and res.bits (complement8 snan_bit)) nan_bit; exponent = pos 0 }

pub propagate_nans : DecNumber → Option DecNumber → DecContext → ℕ → Settled
propagate_nans lhs rhs set status = record {
  number = propagate_nan (nan_source lhs rhs) (pos_part set.digits);
  status = nan_status lhs rhs status;
}

-- The number, and the context with whether a signal was raised.
pub record Reported : Type 0 where
  pub number : DecNumber
  pub signalled : Signalled

-- decStatus, for a status that is not 0.
pub report_status : DecNumber → ℕ → DecContext → Reported
report_status dn status set =
    if has status nans
    then (if has status snan_status
        then record {
          number = dn;
          signalled = set_status set (bit_and status (complement32 snan_status));
        }
        else record {
          number = record zero_number { bits = nan_bit };
          signalled = set_status set status;
        })
    else record { number = dn; signalled = set_status set status }

-- The end of each operator: a status that is not 0 is reported.
pub deliver : DecNumber → ℕ → DecContext → Reported
deliver dn status set =
    if status == 0
    then record { number = dn; signalled = record { context = set; raised = false } }
    else report_status dn status set
