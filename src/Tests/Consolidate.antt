-- ===== src/Tests/Consolidate.antt =====
-- consolidation/consolidate.go on concrete values.
use metrictank.Common.{
  ℕ, ◌+◌, ◌-◌, ◌*◌, ◌/◌, ◌%◌, ◌≤◌, ◌<◌, ◌≡◌, refl, List, [], ◌∷◌, ◌++◌, some, length, arith, ltb,
  ◌==◌, ◌≢◌,
}
use metrictank.Schema.{Point}
use metrictank.Consolidation.{Consolidator, agg_every, consolidate, get_agg_func, nudge}
use metrictank.Consolidation.Groups.{groups, leftover, consolidate-groups}
use metrictank.Consolidation
use metrictank.Batch
use metrictank.Batch.{BatchOps}
use metrictank.Expr.SeriesAggregators.{
  cross_series_min, cross_series_max, cross_series_sum, cross_series_multiply, cross_series_diff,
}
use metrictank.Expr.SeriesAggregators.Columns.{
  by_columns, fold_from, least_of, greatest_of, total_of, cross_series-by_columns,
}
use metrictank.Expr.Normalize.{Series, normalize_to, normalize_points}
use metrictank.Expr.Normalize.Pads.{normalize_to-pads_once}
use metrictank.Consolidation.Nulls.{get_agg_func-SkipsNulls, SkipsNulls}
use metrictank.Consolidation.Nudge.{agg_every_bounds, nudge_aligned}

-- Small numbers for floats, 99 for null.
abbrev pub small_ops : BatchOps
small_ops = record {
  nan = 99;
  inf = 98;
  neg_inf = 0;
  f_zero = 0;
  f_one = 1;
  f_two = 2;
  is_nan = λ v. v == 99;
  lt = ltb;
  f_add = λ a b. a + b;
  f_sub = λ a b. a - b;
  f_mul = λ a b. a * b;
  f_div = λ a b. a / b;
  f_eq = λ a b. a == b;
  f_of_int = λ n. n;
  sqrt = λ v. v;
  sort = λ vs. vs;
}

abbrev with_null : List Point
with_null =
    record { val = 6; ts = 10 } ∷ record { val = 99; ts = 20 } ∷ record { val = 4; ts = 30 } ∷ []

not_mult : Consolidation.avg ≢ Consolidation.mult
not_mult e = cc

get_agg_func-SkipsNulls_example : SkipsNulls small_ops (Batch.avg small_ops) with_null
unfolding get_agg_func
get_agg_func-SkipsNulls_example =
    get_agg_func-SkipsNulls small_ops refl refl Consolidation.avg (Batch.avg small_ops) not_mult
      refl with_null

-- The sum of the values.
abbrev total : List Point → ℕ
total [] = 0
total (p ∷ ps) = p.val + total ps

abbrev three_points : List Point
three_points =
    record { val = 1; ts = 10 } ∷ record { val = 2; ts = 20 } ∷ record { val = 3; ts = 30 } ∷ []

consolidate-groups_example :
    consolidate total three_points 2
    ≡ some (groups total (length three_points / 2) 2 three_points ++ leftover total 2 three_points)
consolidate-groups_example = consolidate-groups total three_points 2 (omega arith)

agg_every_bounds_example :
    (agg_num : ℕ) × (agg_every 10 4 ≡ some agg_num)
    × (0 < agg_num)
    × (10 ≤ agg_num * 4)
    × ((agg_num - 1) * 4 < 10)
agg_every_bounds_example = agg_every_bounds 10 4 (omega arith) (omega arith) (omega arith)

nudge_aligned_example :
    (shift : ℕ) × (num : ℕ) × (nudge 15 5 4 ≡ some (shift, num))
    × (num < 4)
    × (shift ≡ 5 * num)
    × ((15 + shift - 5) % (5 * 4) ≡ 0)
nudge_aligned_example =
    nudge_aligned 15 5 4 (omega arith) (omega arith) (omega arith) (omega arith) refl (omega arith)

abbrev other_series : List Point
other_series =
    record { val = 99; ts = 10 } ∷ record { val = 5; ts = 20 } ∷ record { val = 3; ts = 30 } ∷ []

cross_series-by_columns_example :
    let ss = other_series ∷ three_points ∷ [] in
    (cross_series_min small_ops (with_null ∷ ss)
      ≡ some (by_columns (least_of small_ops) with_null ss))
    × (cross_series_max small_ops (with_null ∷ ss)
        ≡ some (by_columns (greatest_of small_ops) with_null ss))
    × (cross_series_sum small_ops (with_null ∷ ss)
        ≡ some (by_columns (total_of small_ops small_ops.f_add) with_null ss))
    × (cross_series_multiply small_ops (with_null ∷ ss)
        ≡ some (by_columns (fold_from small_ops.f_mul) with_null ss))
    × (cross_series_diff small_ops (with_null ∷ ss)
        ≡ some (by_columns (total_of small_ops small_ops.f_sub) with_null ss))
cross_series-by_columns_example =
    cross_series-by_columns small_ops with_null (other_series ∷ three_points ∷ [])
      (refl, (refl, tt))

-- A series of 5 seconds whose first point is at 15, for an interval of 15.
abbrev at_15 : Series
at_15 = record {
  datapoints = record { val = 3; ts = 15 } ∷ record { val = 4; ts = 20 } ∷ [];
  interval = 5;
  consolidator = Consolidation.sum;
}

normalize_to-pads_once_example :
    normalize_to small_ops at_15 15
    ≡ normalize_points small_ops at_15 15 (record { val = 99; ts = 5 } ∷ at_15.datapoints)
normalize_to-pads_once_example =
    normalize_to-pads_once small_ops at_15 15 (record { val = 3; ts = 15 })
      (record { val = 4; ts = 20 } ∷ []) refl (omega arith) (omega arith) (omega arith)
      (omega arith)
