-- ===== src/Mdata/Aggregator.antt =====
-- mdata/aggregator.go: the points of a raw metric, aggregated into buckets of `span` seconds.
-- The series that it writes are `AggMetric`s that have no aggregators of their own, since
-- `NewAggregator` makes each with a single retention.
use metrictank.Common.{
  ℕ, Bool, true, false, ◌&&◌, not, Option, none, some, ltb, ◌==◌, if◌then◌else◌,
}
use metrictank.Common.Words.{add32}
use metrictank.Mdata.World.{Env, World}
use metrictank.Mdata.Float.{FloatOps}
use metrictank.Mdata.Aggregation.{Aggregation}
use metrictank.Mdata.Aggregation
use metrictank.Mdata.Boundary.{agg_boundary}
use metrictank.Mdata.AggMetric.{AggMetric, ◌>>=◌}
use metrictank.Mdata.AggMetric.Write.{AggOps}
use metrictank.Mdata.AggMetric.Write

-- A series that an aggregator writes.
abbrev pub Series : Type 0
Series = AggMetric ⊥

-- No aggregators, nothing to do to one.
abbrev pub no_aggs : AggOps ⊥
no_aggs = record {
  agg_add = λ env g ts val w. absurd g;
  agg_gc = λ env g now chunk_min_ts metric_min_ts last_write w. absurd g;
}

-- `Aggregator`.
pub record Aggregator : Type 0 where
  pub span : ℕ
  pub current_boundary : ℕ
  pub agg : Aggregation
  pub min_metric : Option Series
  pub max_metric : Option Series
  pub sum_metric : Option Series
  pub cnt_metric : Option Series
  pub lst_metric : Option Series

-- One of the five blocks of `flush`.
unfoldable pub add_to : Env → Option Series → ℕ → ℕ → World → Option (Option Series × World)
add_to env none ts val w = some (none, w)
add_to env (some m) ts val w = Write.add no_aggs env m ts val w >>= λ r. some (some (r.0), r.1)

module _ (fl : FloatOps) where
  -- `flush`.
  unfoldable pub flush : Env → Aggregator → World → Option (Aggregator × World)
  unfolding add_to
  flush env g w = do
    (min_metric, w1) ← add_to env g.min_metric g.current_boundary g.agg.min w
    (max_metric, w2) ← add_to env g.max_metric g.current_boundary g.agg.max w1
    (sum_metric, w3) ← add_to env g.sum_metric g.current_boundary g.agg.sum w2
    (cnt_metric, w4) ← add_to env g.cnt_metric g.current_boundary g.agg.cnt w3
    (lst_metric, w5) ← add_to env g.lst_metric g.current_boundary g.agg.lst w4
    some (
      record g {
        min_metric = min_metric;
        max_metric = max_metric;
        sum_metric = sum_metric;
        cnt_metric = cnt_metric;
        lst_metric = lst_metric;
        agg = Aggregation.reset fl g.agg;
      },
      w5,
    )

  -- `if agg.agg.Cnt != 0 { agg.flush() }`.
  unfoldable pub flush_if_any : Env → Aggregator → World → Option (Aggregator × World)
  unfolding flush
  flush_if_any env g w = if not (fl.f_is_zero g.agg.cnt) then flush env g w else some (g, w)

  -- The lines of `Add` that start a new bucket, where the boundary is ahead of the current one.
  unfoldable pub start_bucket : Env → Aggregator → ℕ → World → Option (Aggregator × World)
  unfolding flush_if_any
  start_bucket env g boundary w =
      if ltb g.current_boundary boundary
      then (flush_if_any env g w >>= λ r. some (record (r.0) { current_boundary = boundary }, r.1))
      else some (g, w)

  -- `Add`.
  unfoldable pub add : Env → Aggregator → ℕ → ℕ → World → Option (Aggregator × World)
  unfolding start_bucket flush
  add env g ts val w =
      let boundary = agg_boundary ts g.span in
      if ltb boundary g.current_boundary
      then some (g, w)
      else (start_bucket env g boundary w >>= λ r.
          let g' = record (r.0) { agg = Aggregation.add fl (r.0).agg val } in
          if ts == boundary then flush env g' (r.1) else some (g', r.1))

  -- One of the five blocks of `GC`: the series, its points and whether it is stale.
  unfoldable pub gc_of :
      Env → Option Series → ℕ → ℕ → ℕ → World → Option (Option Series × ℕ × Bool × World)
  gc_of env none now chunk_min_ts metric_min_ts w = some (none, 0, true, w)
  gc_of env (some m) now chunk_min_ts metric_min_ts w = do
    (m', p, s, w') ← Write.gc no_aggs env m now chunk_min_ts metric_min_ts w
    some (some m', p, s, w')

  -- `GC`.
  unfoldable pub gc :
      Env → Aggregator → ℕ → ℕ → ℕ → ℕ → World → Option (Aggregator × ℕ × Bool × World)
  unfolding gc_of flush_if_any
  gc env g now chunk_min_ts metric_min_ts last_write w =
      if ltb chunk_min_ts (add32 last_write g.span) then some (g, 0, false, w) else do
        (h, w0) ← flush_if_any env g w
        (min_metric, p1, s1, w1) ← gc_of env h.min_metric now chunk_min_ts metric_min_ts w0
        (max_metric, p2, s2, w2) ← gc_of env h.max_metric now chunk_min_ts metric_min_ts w1
        (sum_metric, p3, s3, w3) ← gc_of env h.sum_metric now chunk_min_ts metric_min_ts w2
        (cnt_metric, p4, s4, w4) ← gc_of env h.cnt_metric now chunk_min_ts metric_min_ts w3
        (lst_metric, p5, s5, w5) ← gc_of env h.lst_metric now chunk_min_ts metric_min_ts w4
        some (
          record h {
            min_metric = min_metric;
            max_metric = max_metric;
            sum_metric = sum_metric;
            cnt_metric = cnt_metric;
            lst_metric = lst_metric;
          },
          add32 (add32 (add32 (add32 p1 p2) p3) p4) p5,
          s1 && s2 && s3 && s4 && s5,
          w5,
        )

  -- What an `AggMetric` with aggregators does to each of them.
  abbrev pub agg_ops : AggOps Aggregator
  agg_ops = record { agg_add = add; agg_gc = gc }
