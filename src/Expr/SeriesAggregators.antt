-- ===== src/Expr/SeriesAggregators.antt =====
-- expr/seriesaggregators.go: several series aggregated to one, point by point. Of a series only the
-- points play a part. `none` is a panic: no series, or one of the wrong length. The values are those
-- of `Batch`, with its operations on floats.
pub mod Columns
use metrictank.Common.{
  ℕ, ◌+◌, ◌-◌, ◌/◌, ◌%◌, Bool, ◌||◌, List, [], ◌∷◌, Option, none, some, ◌==◌, if◌then◌else◌, get_or,
  get_elem?, length,
}
use metrictank.Schema.{Point}
use metrictank.Batch.{BatchOps}
use metrictank.Mdata.AggMetric.{◌>>=◌}

-- A series is combined with `out`, in place.
unfoldable pub combine_with : (ℕ → ℕ → ℕ) → List Point → List Point → Option (List Point)
combine_with step out [] = some out
combine_with step [] (p ∷ ps) = none
combine_with step (o ∷ out) (p ∷ ps) =
    combine_with step out ps >>= λ rest. some (record o { val = step o.val p.val } ∷ rest)

-- The loop over the series behind the first.
unfoldable pub combine_all : (ℕ → ℕ → ℕ) → List Point → List (List Point) → Option (List Point)
unfolding combine_with
combine_all step out [] = some out
combine_all step out (s ∷ ss) = combine_with step out s >>= λ out'. combine_all step out' ss

-- The functions that copy the first series and combine the others with it.
unfoldable pub combine_series : (ℕ → ℕ → ℕ) → List (List Point) → Option (List Point)
unfolding combine_all
combine_series step [] = none
combine_series step (s ∷ ss) = combine_all step s ss

-- `in[j].Datapoints[i].Val` for every `j`.
unfoldable pub column : ℕ → List (List Point) → Option (List ℕ)
column i [] = some []
column i (s ∷ ss) = get_elem? s i >>= λ p. column i ss >>= λ vals. some (p.val ∷ vals)

-- A loop over the points of the first series, from place `i` on, that sets values from columns.
unfoldable pub set_from :
    (ℕ → List ℕ → ℕ) → ℕ → List Point → List (List Point) → Option (List Point)
unfolding column
set_from f i [] series = some []
set_from f i (p ∷ ps) series = do
  vals ← column i series
  rest ← set_from f (i + 1) ps series
  some (record p { val = f p.val vals } ∷ rest)

module _ (ops : BatchOps) where
  -- The steps of `crossSeriesMin`, `crossSeriesMax`, `crossSeriesSum` and `crossSeriesDiff`.
  unfoldable pub min_step : ℕ → ℕ → ℕ
  min_step v p = if ops.is_nan p then v else if ops.is_nan v || ops.lt p v then p else v

  unfoldable pub max_step : ℕ → ℕ → ℕ
  max_step v p = if ops.is_nan p then v else if ops.is_nan v || ops.lt v p then p else v

  unfoldable pub sum_step : ℕ → ℕ → ℕ
  sum_step v p = if ops.is_nan p then v else if ops.is_nan v then p else ops.f_add v p

  unfoldable pub diff_step : ℕ → ℕ → ℕ
  diff_step v p = if ops.is_nan p then v else if ops.is_nan v then p else ops.f_sub v p

  -- `crossSeriesMin`.
  unfoldable pub cross_series_min : List (List Point) → Option (List Point)
  unfolding min_step combine_series
  cross_series_min series = combine_series min_step series

  -- `crossSeriesMax`.
  unfoldable pub cross_series_max : List (List Point) → Option (List Point)
  unfolding max_step combine_series
  cross_series_max series = combine_series max_step series

  -- `crossSeriesSum`.
  unfoldable pub cross_series_sum : List (List Point) → Option (List Point)
  unfolding sum_step combine_series
  cross_series_sum series = combine_series sum_step series

  -- `crossSeriesMultiply`.
  unfoldable pub cross_series_multiply : List (List Point) → Option (List Point)
  unfolding combine_series
  cross_series_multiply series = combine_series ops.f_mul series

  -- `crossSeriesDiff`.
  unfoldable pub cross_series_diff : List (List Point) → Option (List Point)
  unfolding diff_step combine_series
  cross_series_diff series = combine_series diff_step series

  -- `num` and `sum` of `crossSeriesAvg`.
  unfoldable pub sum_valid : ℕ → ℕ → List ℕ → ℕ × ℕ
  sum_valid num sum [] = (num, sum)
  sum_valid num sum (p ∷ ps) =
      sum_valid (if ops.is_nan p then num else num + 1)
        (if ops.is_nan p then sum else ops.f_add sum p) ps

  unfoldable pub avg_of : ℕ → List ℕ → ℕ
  unfolding sum_valid
  avg_of old vals =
      let (num, sum) = sum_valid 0 ops.f_zero vals in
      if num == 0 then ops.nan else ops.f_div sum (ops.f_of_int num)

  -- `crossSeriesAvg`.
  unfoldable pub cross_series_avg : List (List Point) → Option (List Point)
  unfolding avg_of set_from
  cross_series_avg [] = none
  cross_series_avg (s ∷ ss) = set_from avg_of 0 s (s ∷ ss)

  -- `vals` of `crossSeriesMedian`.
  unfoldable pub not_null : List ℕ → List ℕ
  not_null [] = []
  not_null (p ∷ ps) = let rest = not_null ps in if ops.is_nan p then rest else p ∷ rest

  unfoldable pub median_of : ℕ → List ℕ → ℕ
  unfolding not_null
  median_of old column_vals =
      let vals = not_null column_vals in
      let sorted = ops.sort vals in
      let mid = length vals / 2 in
      if length vals == 0
      then ops.nan
      else if length vals % 2 == 0
      then ops.f_div (ops.f_add (get_or sorted (mid - 1) 0) (get_or sorted mid 0)) ops.f_two
      else get_or sorted mid 0

  -- `crossSeriesMedian`.
  unfoldable pub cross_series_median : List (List Point) → Option (List Point)
  unfolding median_of set_from
  cross_series_median [] = none
  cross_series_median (s ∷ ss) = set_from median_of 0 s (s ∷ ss)

  -- `num` and `totalDeviationSquared` of `crossSeriesStddev`.
  unfoldable pub deviations : ℕ → ℕ → ℕ → List ℕ → ℕ × ℕ
  deviations mean num total [] = (num, total)
  deviations mean num total (p ∷ ps) =
      let deviation = ops.f_sub p mean in
      deviations mean (if ops.is_nan p then num else ops.f_add num ops.f_one)
        (if ops.is_nan p then total else ops.f_add total (ops.f_mul deviation deviation)) ps

  unfoldable pub stddev_of : ℕ → List ℕ → ℕ
  unfolding deviations
  stddev_of mean vals =
      let (num, total) = deviations mean ops.f_zero ops.f_zero vals in
      if ops.is_nan mean then mean else ops.sqrt (ops.f_div total num)

  -- `crossSeriesStddev`. Where the mean is null its column is not read; it was read for the mean.
  unfoldable pub cross_series_stddev : List (List Point) → Option (List Point)
  unfolding cross_series_avg stddev_of set_from
  cross_series_stddev series =
      cross_series_avg series >>= λ means. set_from stddev_of 0 means series

  -- `crossSeriesRange`. Both lists are as long as the first series.
  unfoldable pub cross_series_range : List (List Point) → Option (List Point)
  unfolding cross_series_max cross_series_min combine_with
  cross_series_range series = do
    out ← cross_series_max series
    mins ← cross_series_min series
    combine_with ops.f_sub out mins
