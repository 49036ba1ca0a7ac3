-- ===== src/Tests/Numbers.antt =====
-- The helpers of util/ on concrete values.
use metrictank.Common.{refl, ℕ, ◌≡◌, [], ◌∷◌, some, arith}
use metrictank.Util.Lcm.{lcm}
use metrictank.Util.Lcm.Least.{LcmOf, lcm-LcmOf}

lcm-LcmOf_example : (l : ℕ) × (lcm (10 ∷ 15 ∷ 4 ∷ []) ≡ some l) × LcmOf (10 ∷ 15 ∷ 4 ∷ []) l
lcm-LcmOf_example =
    lcm-LcmOf 10 (15 ∷ 4 ∷ []) (omega arith, (omega arith, (omega arith, tt))) (omega arith)

sixty : lcm (10 ∷ 15 ∷ 4 ∷ []) ≡ some 60
unfolding lcm
sixty = refl
