-- ===== src/Number/Class.antt =====
-- src/decNumber.c and src/decContext.h: the class of a number, and the tests for normal and subnormal
-- ones.
pub mod Laws
use cpp_decimal.Base.{ℕ, Bool, true, false, if◌then◌else◌, not}
use cpp_decimal.Base.Int.{ℤ, pos, ◌+ℤ◌, ◌-ℤ◌, ltb_ℤ}
use cpp_decimal.Context.{DecContext}
use cpp_decimal.Number.{DecNumber, is_special, is_zero, is_qnan, is_snan, is_negative}

-- enum decClass
pub data DecClass : Type 0 where
  snan : DecClass
  qnan : DecClass
  neg_inf : DecClass
  neg_normal : DecClass
  neg_subnormal : DecClass
  neg_zero : DecClass
  pos_zero : DecClass
  pos_subnormal : DecClass
  pos_normal : DecClass
  pos_inf : DecClass

abbrev pub adjusted : DecNumber → ℤ
adjusted dn = dn.exponent +ℤ pos dn.digits -ℤ pos 1

unfoldable pub is_normal : DecNumber → DecContext → Bool
is_normal dn set =
    if is_special dn
    then false
    else if is_zero dn
    then false
    else not (ltb_ℤ (adjusted dn) set.emin)

unfoldable pub is_subnormal : DecNumber → DecContext → Bool
is_subnormal dn set =
    if is_special dn then false else if is_zero dn then false else ltb_ℤ (adjusted dn) set.emin

unfoldable pub number_class : DecNumber → DecContext → DecClass
number_class dn set =
    if is_special dn
    then (if is_qnan dn
        then DecClass.qnan
        else if is_snan dn
        then DecClass.snan
        else if is_negative dn
        then DecClass.neg_inf
        else DecClass.pos_inf)
    else if is_normal dn set
    then (if is_negative dn then DecClass.neg_normal else DecClass.pos_normal)
    else if is_zero dn
    then (if is_negative dn then DecClass.neg_zero else DecClass.pos_zero)
    else if is_negative dn
    then DecClass.neg_subnormal
    else DecClass.pos_subnormal
