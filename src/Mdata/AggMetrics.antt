-- ===== src/Mdata/AggMetrics.antt =====
-- mdata/aggmetrics.go: the metrics of a node in memory, by organisation and key. The lock makes
-- each part of a method one step. The pointers in the maps are values, so what an operation does to
-- a metric is put back. A loop over a map takes the order of the list. The counters are left out.
-- `none` is a panic.
pub mod Created
use metrictank.Common.{
  ℕ, Bool, true, false, ◌&&◌, ◌%◌, List, [], ◌∷◌, Option, none, some, ◌==◌, if◌then◌else◌, map,
  length,
}
use metrictank.Common.Maps.{get, put, erase}
use metrictank.Common.Words.{u32_mod, sub32}
use metrictank.Conf.Rules.{Aggregations, get_aggregation}
use metrictank.Conf.Schemas.{Schemas, get_schema}
use metrictank.Mdata.World.{Env, World}
use metrictank.Mdata.Float.{FloatOps}
use metrictank.Mdata.AggMetric.{AggMetric, ◌>>=◌}
use metrictank.Mdata.AggMetric.Write
use metrictank.Mdata.Aggregator.{Aggregator, agg_ops}
use metrictank.Mdata.Construct.{new_agg_metric}

-- `MKey` of schema/key.go; the key is any number.
pub record MetricKey : Type 0 where
  pub key : ℕ
  pub org : ℕ

abbrev pub Metric : Type 0
Metric = AggMetric Aggregator

abbrev pub same : ℕ → ℕ → Bool
same a b = a == b

abbrev pub same_mkey : MetricKey → MetricKey → Bool
same_mkey a b = (a.org == b.org) && (a.key == b.key)

-- `AggMetrics`.
pub record AggMetrics : Type 0 where
  pub drop_first_chunk : Bool
  pub ingest_from : List (ℕ × ℕ)
  pub chunk_max_stale : ℕ
  pub metric_max_stale : ℕ
  pub metrics : List (ℕ × List (ℕ × Metric))

-- `NewAggMetrics`.
unfoldable pub new_agg_metrics : Bool → List (ℕ × ℕ) → ℕ → ℕ → AggMetrics
new_agg_metrics drop_first_chunk ingest_from chunk_max_stale metric_max_stale = record {
  drop_first_chunk = drop_first_chunk;
  ingest_from = ingest_from;
  chunk_max_stale = chunk_max_stale;
  metric_max_stale = metric_max_stale;
  metrics = [];
}

-- `ms.Metrics[org]`, a nil map being an empty one.
abbrev pub or_empty : Option (List (ℕ × Metric)) → List (ℕ × Metric)
or_empty none = []
or_empty (some m) = m

abbrev pub of_org : AggMetrics → ℕ → List (ℕ × Metric)
of_org ms org = or_empty (get same org ms.metrics)

-- `Get`.
unfoldable pub find : AggMetrics → MetricKey → Option Metric
find ms k = get same k.key (of_org ms k.org)

-- `ms.Metrics[key.Org][key.Key] = m`, with the map of the organisation made if there is none.
unfoldable pub store : AggMetrics → MetricKey → Metric → AggMetrics
store ms k m = record ms {
  metrics = put same k.org (put same k.key m (of_org ms k.org)) ms.metrics;
}

-- `delete(ms.Metrics[org], key)`.
unfoldable pub delete : AggMetrics → MetricKey → AggMetrics
delete ms k = record ms { metrics = put same k.org (erase same k.key (of_org ms k.org)) ms.metrics }

-- What `GetOrCreate` reads from outside: the configuration, the clock, and the number of a key.
pub record Config : Type 0 where
  pub aggregations : Aggregations
  pub schemas : Schemas
  pub now : ℕ
  pub future_tolerance_ratio : ℕ
  pub number : MetricKey → ℕ
  pub fl : FloatOps

-- The metric that `GetOrCreate` makes.
unfoldable pub make : Config → AggMetrics → MetricKey → ℕ → ℕ → ℕ → Option Metric
make cf ms k schema_id agg_id interval = do
  agg ← get_aggregation cf.aggregations agg_id
  schema ← get_schema cf.schemas schema_id
  new_agg_metric
      (record {
        now = cf.now;
        future_tolerance_ratio = cf.future_tolerance_ratio;
        drop_first_chunk = ms.drop_first_chunk;
        ingest_from = elim (get same k.org ms.ingest_from) [ none ↦ 0 | some t ↦ t ];
      })
      cf.fl (record { mkey = cf.number k; archive = 0 }) schema.retentions schema.reorder_window
      interval agg.aggregation_method schema.reorder_allow_update

-- The part of `GetOrCreate` under the write lock, with what the second look for the metric found.
unfoldable pub create_if :
    Config → AggMetrics → MetricKey → ℕ → ℕ → ℕ → Option Metric → Option (Metric × AggMetrics)
unfolding make store
create_if cf ms k schema_id agg_id interval (some m) = some (m, ms)
create_if cf ms k schema_id agg_id interval none =
    make cf ms k schema_id agg_id interval >>= λ m. some (m, store ms k m)

unfoldable pub create : Config → AggMetrics → MetricKey → ℕ → ℕ → ℕ → Option (Metric × AggMetrics)
unfolding find create_if
create cf ms k schema_id agg_id interval = create_if cf ms k schema_id agg_id interval (find ms k)

-- `GetOrCreate`, not interrupted between its two parts, with what the first look found.
unfoldable pub get_or_create_if :
    Config → AggMetrics → MetricKey → ℕ → ℕ → ℕ → Option Metric → Option (Metric × AggMetrics)
unfolding create
get_or_create_if cf ms k schema_id agg_id interval (some m) = some (m, ms)
get_or_create_if cf ms k schema_id agg_id interval none = create cf ms k schema_id agg_id interval

unfoldable pub get_or_create :
    Config → AggMetrics → MetricKey → ℕ → ℕ → ℕ → Option (Metric × AggMetrics)
unfolding find get_or_create_if
get_or_create cf ms k schema_id agg_id interval =
    get_or_create_if cf ms k schema_id agg_id interval (find ms k)

module _ (fl : FloatOps) (env : Env) where
  -- A round of the inner loop of `GC`.
  unfoldable pub gc_metric :
      AggMetrics → MetricKey → ℕ → ℕ → ℕ → World → Option (AggMetrics × World)
  unfolding find store delete
  gc_metric ms k now chunk_min_ts metric_min_ts w = do
    a ← find ms k
    (a', points, stale, w') ← Write.gc (agg_ops fl) env a now chunk_min_ts metric_min_ts w
    if stale then some (delete ms k, w') else some (store ms k a', w')

  unfoldable pub gc_keys : AggMetrics → ℕ → List ℕ → ℕ → ℕ → ℕ → World → Option (AggMetrics × World)
  unfolding gc_metric
  gc_keys ms org [] now chunk_min_ts metric_min_ts w = some (ms, w)
  gc_keys ms org (key ∷ keys) now chunk_min_ts metric_min_ts w = do
    (ms', w') ← gc_metric ms (record { key = key; org = org }) now chunk_min_ts metric_min_ts w
    gc_keys ms' org keys now chunk_min_ts metric_min_ts w'

  -- An organisation without metrics is deleted.
  unfoldable pub drop_empty : AggMetrics → ℕ → AggMetrics
  drop_empty ms org =
      if length (of_org ms org) == 0 then record ms { metrics = erase same org ms.metrics } else ms

  -- The outer loop of `GC`.
  unfoldable pub gc_orgs : AggMetrics → List ℕ → ℕ → ℕ → ℕ → World → Option (AggMetrics × World)
  unfolding gc_keys drop_empty
  gc_orgs ms [] now chunk_min_ts metric_min_ts w = some (ms, w)
  gc_orgs ms (org ∷ orgs) now chunk_min_ts metric_min_ts w = do
    let keys = map (λ (e : ℕ × Metric). e.0) (of_org ms org)
    (ms', w') ← gc_keys ms org keys now chunk_min_ts metric_min_ts w
    gc_orgs (drop_empty ms' org) orgs now chunk_min_ts metric_min_ts w'

  -- One round of `GC`.
  unfoldable pub gc : AggMetrics → World → Option (AggMetrics × World)
  unfolding gc_orgs
  gc ms w =
      let now = env.now % u32_mod in
      gc_orgs ms (map (λ (e : ℕ × List (ℕ × Metric)). e.0) ms.metrics) now
        (sub32 now ms.chunk_max_stale) (sub32 now ms.metric_max_stale) w
