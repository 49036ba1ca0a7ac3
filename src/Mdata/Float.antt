-- ===== src/Mdata/Float.antt =====
-- The float64 operations that the aggregations use, on bit patterns: the hardware's, so parameters.
use metrictank.Common.{ℕ, zero, suc, Bool}

pub record FloatOps : Type 0 where
  pub f_zero : ℕ
  pub f_one : ℕ
  pub max_float : ℕ
  pub neg_max_float : ℕ
  pub f_add : ℕ → ℕ → ℕ
  pub f_min : ℕ → ℕ → ℕ
  pub f_max : ℕ → ℕ → ℕ
  pub f_is_zero : ℕ → Bool

-- `n` times `+= 1`, from 0.
abbrev pub count : FloatOps → ℕ → ℕ
count fl zero = fl.f_zero
count fl (suc n) = fl.f_add (count fl n) fl.f_one
