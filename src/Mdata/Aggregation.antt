-- ===== src/Mdata/Aggregation.antt =====
-- mdata/aggregation.go: the statistics of one bucket.
use metrictank.Common.{ℕ}
use metrictank.Mdata.Float.{FloatOps}

-- `Aggregation`; the fields are float64 bit patterns.
pub record Aggregation : Type 0 where
  pub min : ℕ
  pub max : ℕ
  pub sum : ℕ
  pub cnt : ℕ
  pub lst : ℕ

module _ (fl : FloatOps) where
  -- `NewAggregation`.
  unfoldable pub new_aggregation : Aggregation
  new_aggregation = record {
    min = fl.max_float;
    max = fl.neg_max_float;
    sum = fl.f_zero;
    cnt = fl.f_zero;
    lst = fl.f_zero;
  }

  -- `Add`.
  unfoldable pub add : Aggregation → ℕ → Aggregation
  add a val = record {
    min = fl.f_min val a.min;
    max = fl.f_max val a.max;
    sum = fl.f_add a.sum val;
    cnt = fl.f_add a.cnt fl.f_one;
    lst = val;
  }

  -- `Reset`, which leaves `Lst`.
  unfoldable pub reset : Aggregation → Aggregation
  reset a = record a {
    min = fl.max_float;
    max = fl.neg_max_float;
    sum = fl.f_zero;
    cnt = fl.f_zero;
  }
