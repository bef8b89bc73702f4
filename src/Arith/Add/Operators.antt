-- ===== src/Arith/Add/Operators.antt =====
-- decNumberAdd and decNumberSubtract where the exact result fits the precision.
use cpp_decimal.Base.{ℕ, ◌≡◌, Bool, true, false, refl}
use cpp_decimal.Arith.Add.{add, add_op, subtract}
use cpp_decimal.Arith.Add.Exact.{IsFitting, add_op-IsExactSum}
use cpp_decimal.Arith.Add.Signs.{exact_sum, lower}
use cpp_decimal.Arith.Add.Units.Exact.{IsExactSum}
use cpp_decimal.Base.Int.{ℤ}
use cpp_decimal.Context.{DecContext}
use cpp_decimal.Number.{DecNumber, IsCoefficient, neg_bit}
use cpp_decimal.Number.Int32.Laws.{signed}
use cpp_decimal.Number.Nan.{Reported, deliver}
use cpp_decimal.Number.Nan.Laws.{deliver-zero}
use cpp_decimal.Round.Overflow.{Settled}

-- The exact value `x` at the exponent of `low`, in a valid form, and the context as it was.
pub record IsQuietSum (x : ℤ) (low : DecNumber) (set : DecContext) (r : Reported) : Type 0 where
  pub total : signed r.number ≡ x
  pub coefficient : IsCoefficient r.number.digits r.number.lsu
  pub exponent : r.number.exponent ≡ low.exponent
  pub same_context : r.signalled.context ≡ set
  pub no_signal : r.signalled.raised ≡ false

delivered :
    (x : ℤ) (low : DecNumber) (set : DecContext) (s : Settled)
    → IsExactSum x low 0 s
    → IsQuietSum x low set (deliver s.number s.status set)
delivered x low set s e =
    rw (e.status, deliver-zero s.number set)
      (record {
        total = e.total;
        coefficient = e.coefficient;
        exponent = e.exponent;
        same_context = refl;
        no_signal = refl;
      })

-- decNumberAdd with storage, for extended arithmetic, on two finite numbers that are not 0, where the exact sum
-- has at most `p` digits, `p` the precision, in units of the lower exponent, and that exponent is from emin to
-- emax - p + 1: the result has that value at the lower exponent, its coefficient is valid, the context is
-- unchanged and no signal is raised.
pub add-IsQuietSum :
    (overlap : Bool) (res lhs rhs : DecNumber) (set : DecContext) (p : ℕ)
    → IsFitting lhs rhs set 0 p
    → IsQuietSum (exact_sum lhs rhs 0) (lower lhs rhs) set (add true overlap res lhs rhs set)
unfolding add
add-IsQuietSum overlap res lhs rhs set p f =
    delivered (exact_sum lhs rhs 0) (lower lhs rhs) set (add_op true overlap res lhs rhs set 0 0)
      (add_op-IsExactSum overlap res lhs rhs set 0 0 p f)

-- decNumberSubtract with storage, for extended arithmetic, on two finite numbers that are not 0, where the
-- exact difference has at most `p` digits, `p` the precision, in units of the lower exponent, and that exponent
-- is from emin to emax - p + 1: the result has that value at the lower exponent, its coefficient is valid, the
-- context is unchanged and no signal is raised.
pub subtract-IsQuietSum :
    (overlap : Bool) (res lhs rhs : DecNumber) (set : DecContext) (p : ℕ)
    → IsFitting lhs rhs set neg_bit p
    → IsQuietSum
        (exact_sum lhs rhs neg_bit)
        (lower lhs rhs)
        set
        (subtract true overlap res lhs rhs set)
unfolding subtract
subtract-IsQuietSum overlap res lhs rhs set p f =
    delivered (exact_sum lhs rhs neg_bit) (lower lhs rhs) set
      (add_op true overlap res lhs rhs set neg_bit 0)
      (add_op-IsExactSum overlap res lhs rhs set neg_bit 0 p f)
