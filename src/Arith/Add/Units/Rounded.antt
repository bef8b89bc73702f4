-- ===== src/Arith/Add/Units/Rounded.antt =====
-- An aligned sum that is longer than the precision is cut once.
use cpp_decimal.Base.{ℕ, suc, ◌+◌, ◌*◌, ◌<◌, ◌≤◌, ◌≡◌, ◌≢◌, arith, true, [], length}
use cpp_decimal.Base.Int.{ℤ, pos, ◌+ℤ◌, ◌-ℤ◌, ◌≤ℤ◌, ltb_ℤ}
use cpp_decimal.Arith.Add.Units.{fit_sum}
use cpp_decimal.Context.{DecContext}
use cpp_decimal.Number.{DecNumber}
use cpp_decimal.Number.Digits.{get_digits, recount}
use cpp_decimal.Round.Coeff.{set_coeff}
use cpp_decimal.Number.Digits.Laws.{IsDigits}
use cpp_decimal.Number.Digits.Recount.{digits_within, recount_same}
use cpp_decimal.Round.Finalize.{finish}
use cpp_decimal.Round.Settle.{IsFinished, set_coeff-IsCutSum, finish-IsFinished}
use cpp_decimal.Units.{value, IsUnits}

pub fit_sum-IsFinished :
    (sum : DecNumber) (set : DecContext) (status p d : ℕ)
    → set.digits ≡ pos (suc p)
    → set.extended ≡ true
    → IsUnits sum.lsu
    → sum.lsu ≢ []
    → sum.digits ≡ length sum.lsu * 2
    → IsDigits (value sum.lsu) (suc p + suc d)
    → set.emin ≤ℤ sum.exponent
    → sum.exponent +ℤ pos (suc d) +ℤ pos 1 ≤ℤ set.emax -ℤ set.digits +ℤ pos 1
    → let fit = fit_sum sum set status in
      IsFinished
        (value sum.lsu)
        p
        d
        set.round
        sum.bits
        sum.exponent
        (finish true (recount fit.number) set fit.residue fit.status)
unfolding fit_sum
fit_sum-IsFinished sum set status p d e ext hu ne hd digits lo hi =
    let within : suc p + suc d ≤ 2 * length sum.lsu = digits_within sum.lsu _ ne hu digits in
    let cut = set_coeff-IsCutSum sum set sum.lsu status p d e hu ne digits in
    rw
      (
        long set.digits sum.digits p e (omega (arith, hd, within)),
        recount_same (set_coeff sum set sum.lsu (get_digits sum.lsu) (pos 0) status).number
            cut.coefficient,
      )
      (finish-IsFinished (value sum.lsu) p d sum.bits sum.exponent
        (set_coeff sum set sum.lsu (get_digits sum.lsu) (pos 0) status) set e ext lo hi cut)
  where
    long : (x : ℤ) (n p : ℕ) → x ≡ pos (suc p) → suc p < n → ltb_ℤ x (pos n) ≡ true
    long x n p e h = rw e (ground (arith, h))
