-- ===== src/Tests/Registry.antt =====
-- New metrics and the registry of mdata/aggmetrics.go on concrete values.
use metrictank.Common.{
  ℕ, ◌+◌, ◌≡◌, refl, true, false, [], ◌∷◌, none, some, min, max, ◌==◌, if◌then◌else◌,
}
use metrictank.Common.Maps.{get}
use metrictank.Schema.{AmKey}
use metrictank.Conf.Retention.{Retention}
use metrictank.Conf.Rules.{Aggregation, Aggregations, get_aggregation}
use metrictank.Conf.Rules
use metrictank.Conf.Schemas.{Schema, Schemas, get_schema}
use metrictank.Consolidation
use metrictank.Mdata.World.{Env, World}
use metrictank.Mdata.Float.{FloatOps}
use metrictank.Mdata.AggMetric.{AggMetric}
use metrictank.Mdata.AggMetric.Write
use metrictank.Mdata.Aggregator.{Aggregator, agg_ops}
use metrictank.Mdata.Construct.{Setup, new_agg_metric, get_aggregated}
use metrictank.Mdata.Construct.Stored.{all_answer, new_agg_metric-answer}
use metrictank.Mdata.AggMetrics.{
  MetricKey, Metric, AggMetrics, Config, same_mkey, find, make, get_or_create, gc_metric,
}
use metrictank.Mdata.AggMetrics.Created.{Created, old_or, get_or_create-Created, gc_metric-find}

abbrev whole : FloatOps
whole = record {
  f_zero = 0;
  f_one = 1;
  max_float = 1000;
  neg_max_float = 0;
  f_add = λ a b. a + b;
  f_min = λ a b. min a b;
  f_max = λ a b. max a b;
  f_is_zero = λ a. a == 0;
}

abbrev setup : Setup
setup = record {
  now = 5000;
  future_tolerance_ratio = 10;
  drop_first_chunk = false;
  ingest_from = 0;
}

abbrev raw_key : AmKey
raw_key = record { mkey = 1; archive = 0 }

abbrev retention : ℕ → Retention
retention seconds = record {
  seconds_per_point = seconds;
  number_of_points = 100;
  chunk_span = 600;
  num_chunks = 2;
  ready = 0;
}

new_agg_metric-answer_example :
    (a : AggMetric Aggregator) × (new_agg_metric setup whole raw_key
        (retention 1 ∷ retention 60 ∷ [])
        0
        1
        (Rules.avg ∷ Rules.max ∷ [])
        false
      ≡ some a)
    × (get_aggregated a Consolidation.cnt 60 10 20
        ≡ some (
            all_answer setup whole raw_key Rules.avg
              (Rules.max ∷ [])
              (retention 60 ∷ [])
              Consolidation.cnt
              60
              10
              20))
new_agg_metric-answer_example =
    new_agg_metric-answer setup whole raw_key Rules.avg (Rules.max ∷ []) (retention 1)
      (retention 60 ∷ []) 0 1 false Consolidation.cnt 60 10 20

abbrev schema : Schema
schema = record {
  name = [];
  pattern = λ name. true;
  retentions = retention 1 ∷ [];
  priority = 0;
  reorder_window = 0;
  reorder_allow_update = false;
}

abbrev schemas : Schemas
schemas = record { raw = []; index = schema ∷ []; default_schema = schema }

abbrev sums : Aggregations
sums = record {
  items = [];
  default_aggregation = record {
    name = [];
    pattern = λ name. true;
    x_files_factor = 0;
    aggregation_method = Rules.sum ∷ [];
  };
}

abbrev config : Config
config = record {
  aggregations = sums;
  schemas = schemas;
  now = 5000;
  future_tolerance_ratio = 10;
  number = λ k. k.key;
  fl = whole;
}

abbrev registry : AggMetrics
registry = record {
  drop_first_chunk = false;
  ingest_from = [];
  chunk_max_stale = 100;
  metric_max_stale = 200;
  metrics = [];
}

abbrev one : MetricKey
one = record { key = 1; org = 7 }

abbrev two : MetricKey
two = record { key = 2; org = 7 }

-- The metric that is made, last written at 5000.
abbrev made_metric : Metric
made_metric = record {
  key = raw_key;
  rob = none;
  current_chunk_pos = 0;
  num_chunks = 2;
  chunk_span = 600;
  chunks = [];
  aggregators = [];
  drop_first_chunk = false;
  ingest_from_t0 = 0;
  future_tolerance = 10;
  ttl = 100;
  last_save_start = 0;
  last_write = 5000;
  first_ts = 0;
}

made_one : make config registry one 0 0 1 ≡ some made_metric
unfolding make get_aggregation get_schema new_agg_metric get
made_one = refl

get_or_create-Created_example :
    Created config registry one
      (get_or_create config registry one 0 0 1)
      (old_or (find registry one) made_metric)
      two
      0
      0
      10
get_or_create-Created_example =
    get_or_create-Created config registry one 0 0 1 made_metric made_one two 0 0 10

abbrev env : Env
env = record {
  now = 6000;
  is_primary = true;
  enforce_future_tolerance = false;
  has_cache_pusher = false;
}

abbrev world : World
world = record { stored = []; pushed = [] }

abbrev one_metric : AggMetrics
one_metric = record registry { metrics = (7, (1, made_metric) ∷ []) ∷ [] }

found_one : find one_metric one ≡ some made_metric
unfolding find get
found_one = refl

gc_one :
    Write.gc (agg_ops whole) env made_metric 6000 5900 5800 world
    ≡ some (made_metric, 0, true, world)
unfolding Write.gc
gc_one = refl

gc_metric-find_example :
    (ms' : AggMetrics) × (gc_metric whole env one_metric one 6000 5900 5800 world
      ≡ some (ms', world))
    × (find ms' two ≡ (
        if same_mkey one two
        then (if true then none else some made_metric)
        else find one_metric two))
gc_metric-find_example =
    gc_metric-find whole env one_metric one 6000 5900 5800 world world made_metric made_metric 0
      true two found_one gc_one
