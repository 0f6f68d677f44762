-- ===== src/Sweep/Refusals.antt =====
-- rust/src/sweep.rs, `attempt_subsidized`: what holds past its early returns.
use zinqq_kmp.Common.{
  ℕ, String, ◌≡◌, refl, Bool, true, false, not, Option, none, some, Result, ok, refuse, ◌>>◌, arith,
}
use zinqq_kmp.Sweep.SubsidyPlan.{or_failed, fee_is}

-- What passed two refusals was refused by neither.
pub two_refusals :
    {E A : Type 0} (a b : Bool) (e f : E) (r : Result E A) (x : A)
    → (refuse a e >> refuse b f >> r) ≡ ok x
    → (a ≡ false) × (b ≡ false) × (r ≡ ok x)
two_refusals true b e f r x h = cc
two_refusals false true e f r x h = cc
two_refusals false false e f r x h = (refl, refl, h)

pub four_refusals :
    {E A : Type 0} (a b c d : Bool) (e f g h : E) (r : Result E A) (x : A)
    → (refuse a e >> refuse b f >> refuse c g >> refuse d h >> r) ≡ ok x
    → (b ≡ false) × (r ≡ ok x)
four_refusals true b c d e f g h r x is = cc
four_refusals false true c d e f g h r x is = cc
four_refusals false false true d e f g h r x is = cc
four_refusals false false false true e f g h r x is = cc
four_refusals false false false false e f g h r x is = (refl, is)

pub or_failed-ok :
    {A : Type 0} (reason : String) (o : Option A) (a : A) → or_failed reason o ≡ ok a → o ≡ some a
or_failed-ok reason none a h = cc
or_failed-ok reason (some b) a h = cc

pub fee-is : (o : Option ℕ) (total : ℕ) → not (fee_is o total) ≡ false → o ≡ some total
fee-is none total h = cc
fee-is (some fee) total h = ground arith
