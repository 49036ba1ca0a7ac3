-- ===== src/Mdata/Construct.antt =====
-- `NewAggMetric` of mdata/aggmetric.go and `NewAggregator` of mdata/aggregator.go, and the methods of
-- an `AggMetric` that pick one of the series of an aggregator. The text of the retentions, which
-- is only handed down, is left out. `ingest_from` is a time, or 0 for none. `none` is a panic.
pub mod Stored
use metrictank.Common.{
  ℕ, zero, suc, ◌+◌, ◌*◌, ◌/◌, ◌%◌, ◌^◌, Bool, true, false, List, [], ◌∷◌, ◌++◌, Option, none, some,
  ltb, ◌==◌, if◌then◌else◌, not, length,
}
use metrictank.Common.Words.{u32_mod, mul32}
use metrictank.Schema.{AmKey}
use metrictank.Schema.Archive.{new_archive}
use metrictank.Schema.Archive
use metrictank.Util.Atomic.{bump}
use metrictank.Conf.Retention.{Retention, max_retention}
use metrictank.Conf.Rules
use metrictank.Consolidation.{Consolidator}
use metrictank.Consolidation
use metrictank.Mdata.Float.{FloatOps}
use metrictank.Mdata.Aggregation.{new_aggregation}
use metrictank.Mdata.Boundary.{agg_boundary}
use metrictank.Mdata.Reorder
use metrictank.Mdata.AggMetric.{AggMetric, ◌>>=◌}
use metrictank.Mdata.AggMetric.Read.{Reply, get}
use metrictank.Mdata.Aggregator.{Aggregator, Series}

-- What all the metrics of a node are made with: the first reading of the clock, the ratio
-- `futureToleranceRatio` and two settings of the registry.
pub record Setup : Type 0 where
  pub now : ℕ
  pub future_tolerance_ratio : ℕ
  pub drop_first_chunk : Bool
  pub ingest_from : ℕ

-- `NewAggMetric` up to the aggregators.
unfoldable pub new_raw : {Agg : Type 0} → Setup → AmKey → Retention → ℕ → ℕ → Bool → AggMetric Agg
new_raw s key ret reorder_window interval allow_update = record {
  key = key;
  rob =
      if reorder_window == 0 then none else some (Reorder.new reorder_window interval allow_update);
  current_chunk_pos = 0;
  num_chunks = ret.num_chunks;
  chunk_span = ret.chunk_span;
  chunks = [];
  aggregators = [];
  drop_first_chunk = s.drop_first_chunk;
  ingest_from_t0 =
      if ltb 0 s.ingest_from then agg_boundary (s.ingest_from % u32_mod) ret.chunk_span else 0;
  future_tolerance = mul32 (max_retention ret % u32_mod) (s.future_tolerance_ratio % u32_mod) / 100;
  ttl = max_retention ret % u32_mod;
  last_save_start = 0;
  last_write = s.now % u32_mod;
  first_ts = 0;
}

-- `if aggregator.sumMetric == nil { ... }`.
abbrev pub if_nil : Option Series → Series → Option Series
if_nil none m = some m
if_nil (some m) fresh = some m

-- The span of an aggregator.
abbrev pub span_of : Retention → ℕ
span_of ret = ret.seconds_per_point % u32_mod

module _ (s : Setup) where
  -- A series of an aggregator.
  unfoldable pub new_series : AmKey → Retention → Archive.Method → Series
  unfolding new_raw
  new_series key ret method =
      new_raw s (record key { archive = new_archive method (span_of ret) }) ret 0 (span_of ret)
        false

  -- A round of the loop of `NewAggregator`.
  unfoldable pub add_method : AmKey → Retention → Rules.Method → Aggregator → Aggregator
  unfolding new_series
  add_method key ret Rules.avg g = record g {
    sum_metric = if_nil g.sum_metric (new_series key ret Archive.sum);
    cnt_metric = if_nil g.cnt_metric (new_series key ret Archive.cnt);
  }
  add_method key ret Rules.sum g = record g {
    sum_metric = if_nil g.sum_metric (new_series key ret Archive.sum);
  }
  add_method key ret Rules.lst g = record g {
    lst_metric = if_nil g.lst_metric (new_series key ret Archive.lst);
  }
  add_method key ret Rules.max g = record g {
    max_metric = if_nil g.max_metric (new_series key ret Archive.max);
  }
  add_method key ret Rules.min g = record g {
    min_metric = if_nil g.min_metric (new_series key ret Archive.min);
  }

  unfoldable pub add_methods : AmKey → Retention → List Rules.Method → Aggregator → Aggregator
  unfolding add_method
  add_methods key ret [] g = g
  add_methods key ret (m ∷ ms) g = add_methods key ret ms (add_method key ret m g)

  module _ (fl : FloatOps) where
    -- `NewAggregator`.
    unfoldable pub new_aggregator : AmKey → Retention → List Rules.Method → Option Aggregator
    unfolding add_methods
    new_aggregator key ret [] = none
    new_aggregator key ret (m ∷ ms) = some (
        add_methods key ret (m ∷ ms) (record {
          span = span_of ret;
          current_boundary = 0;
          agg = new_aggregation fl;
          min_metric = none;
          max_metric = none;
          sum_metric = none;
          cnt_metric = none;
          lst_metric = none;
        }))

    -- The loop of `NewAggMetric`.
    unfoldable pub new_aggregators :
        AmKey → List Retention → List Rules.Method → Option (List Aggregator)
    unfolding new_aggregator
    new_aggregators key [] methods = some []
    new_aggregators key (ret ∷ rets) methods =
        let rest = new_aggregators key rets methods in
        new_aggregator key ret methods >>= λ g. rest >>= λ gs. some (g ∷ gs)

    -- `NewAggMetric`, with the methods of `agg`.
    unfoldable pub new_agg_metric :
        AmKey → List Retention → ℕ → ℕ → List Rules.Method → Bool → Option (AggMetric Aggregator)
    unfolding new_raw new_aggregators
    new_agg_metric key [] reorder_window interval methods allow_update = none
    new_agg_metric key (ret ∷ rets) reorder_window interval methods allow_update =
        new_aggregators key rets methods >>= λ gs.
        some (record (new_raw s key ret reorder_window interval allow_update) { aggregators = gs })

-- Why `GetAggregated` refuses.
pub data AggError : Type 0 where
  no_archive needs_sum_and_cnt unknown_consolidator not_configured unknown_agg_span : AggError

pub data AggReply : Type 0 where
  ok : Reply → AggReply
  err : AggError → AggReply

-- The switch of `GetAggregated`.
unfoldable pub get_series : Option Series → ℕ → ℕ → Option AggReply
unfolding get
get_series none from to = some (err not_configured)
get_series (some m) from to = get m from to >>= λ r. some (ok r)

unfoldable pub get_of : Aggregator → Consolidator → ℕ → ℕ → Option AggReply
unfolding get_series
get_of g Consolidation.no_consolidation from to = some (err no_archive)
get_of g Consolidation.avg from to = some (err needs_sum_and_cnt)
get_of g Consolidation.cnt from to = get_series g.cnt_metric from to
get_of g Consolidation.lst from to = get_series g.lst_metric from to
get_of g Consolidation.min from to = get_series g.min_metric from to
get_of g Consolidation.max from to = get_series g.max_metric from to
get_of g Consolidation.sum from to = get_series g.sum_metric from to
get_of g consolidator from to = some (err unknown_consolidator)

-- The loop of `GetAggregated`.
unfoldable pub get_from : List Aggregator → Consolidator → ℕ → ℕ → ℕ → Option AggReply
unfolding get_of
get_from [] consolidator agg_span from to = some (err unknown_agg_span)
get_from (g ∷ gs) consolidator agg_span from to =
    let rest = get_from gs consolidator agg_span from to in
    if g.span == agg_span then get_of g consolidator from to else rest

-- `GetAggregated`.
unfoldable pub get_aggregated : AggMetric Aggregator → Consolidator → ℕ → ℕ → ℕ → Option AggReply
unfolding get_from
get_aggregated a consolidator agg_span from to =
    get_from a.aggregators consolidator agg_span from to

-- The function that `SyncChunkSaveState` returns: the metric, and the timestamps of the calls of
-- `SendPersistMessage` with its key.
unfoldable pub sync_chunk_save_state :
    {Agg : Type 0} → AggMetric Agg → ℕ → Bool → AggMetric Agg × List ℕ
unfolding bump
sync_chunk_save_state a ts send_persist =
    (record a { last_save_start = bump a.last_save_start ts }, if send_persist then ts ∷ [] else [])

abbrev pub sync_series : Option Series → ℕ → Option Series
sync_series none ts = none
sync_series (some m) ts = some ((sync_chunk_save_state m ts false).0)

-- The switch of `SyncAggregatedChunkSaveState`.
unfoldable pub sync_of : Aggregator → Consolidator → ℕ → Option Aggregator
unfolding sync_chunk_save_state
sync_of g Consolidation.cnt ts = some (record g { cnt_metric = sync_series g.cnt_metric ts })
sync_of g Consolidation.min ts = some (record g { min_metric = sync_series g.min_metric ts })
sync_of g Consolidation.max ts = some (record g { max_metric = sync_series g.max_metric ts })
sync_of g Consolidation.sum ts = some (record g { sum_metric = sync_series g.sum_metric ts })
sync_of g Consolidation.lst ts = some (record g { lst_metric = sync_series g.lst_metric ts })
sync_of g consolidator ts = none

unfoldable pub sync_all : List Aggregator → ℕ → Consolidator → ℕ → Option (List Aggregator)
unfolding sync_of
sync_all [] ts consolidator agg_span = some []
sync_all (g ∷ gs) ts consolidator agg_span =
    let rest = sync_all gs ts consolidator agg_span in
    if g.span == agg_span
    then (sync_of g consolidator ts >>= λ g'. some (g' ∷ gs))
    else (rest >>= λ gs'. some (g ∷ gs'))

-- `SyncAggregatedChunkSaveState`.
unfoldable pub sync_aggregated_chunk_save_state :
    AggMetric Aggregator → ℕ → Consolidator → ℕ → Option (AggMetric Aggregator)
unfolding sync_all
sync_aggregated_chunk_save_state a ts consolidator agg_span =
    sync_all a.aggregators ts consolidator agg_span >>= λ gs. some (record a { aggregators = gs })
