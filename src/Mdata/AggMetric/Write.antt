-- ===== src/Mdata/AggMetric/Write.antt =====
-- `Add` and `GC` of mdata/aggmetric.go, over what `Add` and `GC` do to one aggregator.
use metrictank.Common.{
  ℕ, ◌*◌, Bool, true, false, ◌&&◌, not, List, [], ◌∷◌, Option, none, some, ltb, ◌==◌, if◌then◌else◌,
  get_elem?, length,
}
use metrictank.Common.Words.{add32, sub32}
use metrictank.Schema.{Point}
use metrictank.Chunk.{Chunk}
use metrictank.Mdata.Errors.{ok, err}
use metrictank.Mdata.World.{Env, World}
use metrictank.Mdata.Reorder.{ReorderBuffer}
use metrictank.Mdata.Reorder
use metrictank.Mdata.AggMetric.{AggMetric, ◌>>=◌, add_raw, close}

-- What `Aggregator.Add` and `Aggregator.GC` do; the arguments of `gc` are `now`, `chunkMinTs`,
-- `metricMinTs` and the last write to the raw metric.
pub record AggOps (Agg : Type 0) : Type 0 where
  pub agg_add : Env → Agg → ℕ → ℕ → World → Option (Agg × World)
  pub agg_gc : Env → Agg → ℕ → ℕ → ℕ → ℕ → World → Option (Agg × ℕ × Bool × World)

module _ {Agg : Type 0} (ops : AggOps Agg) where
  open ops use {agg_add, agg_gc}

  -- `addAggregators`.
  unfoldable pub add_all : Env → List Agg → ℕ → ℕ → World → Option (List Agg × World)
  add_all env [] ts val w = some ([], w)
  add_all env (g ∷ gs) ts val w = do
    (g', w') ← agg_add env g ts val w
    (gs', w'') ← add_all env gs ts val w'
    some (g' ∷ gs', w'')

  unfoldable pub add_aggregators :
      Env → AggMetric Agg → ℕ → ℕ → World → Option (AggMetric Agg × World)
  unfolding add_all
  add_aggregators env a ts val w = do
    (gs, w') ← add_all env a.aggregators ts val w
    some (record a { aggregators = gs }, w')

  -- `add`: a point that was taken goes on to the aggregators.
  unfoldable pub add_locked : Env → AggMetric Agg → ℕ → ℕ → World → Option (AggMetric Agg × World)
  unfolding add_raw add_aggregators
  add_locked env a ts val w = do
    (a', taken, w') ← add_raw env a ts val w
    if taken then add_aggregators env a' ts val w' else some (a', w')

  unfoldable pub add_points :
      Env → AggMetric Agg → List Point → World → Option (AggMetric Agg × World)
  unfolding add_locked
  add_points env a [] w = some (a, w)
  add_points env a (p ∷ ps) w = do (a', w') ← add_locked env a p.ts p.val w; add_points env a' ps w'

  -- The part of `Add` behind the reorder buffer.
  unfoldable pub add_reordered :
      Env → AggMetric Agg → ReorderBuffer → ℕ → ℕ → World → Option (AggMetric Agg × World)
  unfolding add_points
  add_reordered env a rob ts val w = elim (Reorder.add rob ts val) [
    | err e ↦ some (a, w)
    | ok (res, rob') ↦ elim res [
      | [] ↦ some (record a { rob = some rob'; last_write = env.now }, w)
      | p ∷ ps ↦ add_points env (record a { rob = some rob' }) (p ∷ ps) w
    ]
  ]

  -- The test of `Add` on a timestamp that is too far ahead of the clock.
  unfoldable pub is_too_far_ahead : Env → AggMetric Agg → ℕ → Bool
  is_too_far_ahead env a ts = ltb a.future_tolerance ts && ltb env.now (sub32 ts a.future_tolerance)

  -- `Add`.
  unfoldable pub add : Env → AggMetric Agg → ℕ → ℕ → World → Option (AggMetric Agg × World)
  unfolding is_too_far_ahead add_reordered
  add env a ts val w =
      if ltb ts a.ingest_from_t0
      then add_aggregators env a ts val w
      else if is_too_far_ahead env a ts && env.enforce_future_tolerance
      then some (a, w)
      else elim a.rob [
        | none ↦ add_locked env a ts val w
        | some rob ↦ add_reordered env a rob ts val w
      ]

  -- `collectable`; `none` is a position out of range.
  unfoldable pub collectable : AggMetric Agg → ℕ → ℕ → Option Bool
  collectable a now chunk_min_ts =
      if length a.chunks == 0
      then some (ltb a.last_write chunk_min_ts)
      else (get_elem? a.chunks a.current_chunk_pos >>= λ c. some (
          ltb a.last_write chunk_min_ts
          && ltb (add32 (add32 c.series.t0 a.chunk_span) (15 * 60)) now))

  -- `gcAggregators`, over the aggregators.
  unfoldable pub gc_all :
      Env → List Agg → ℕ → ℕ → ℕ → ℕ → World → Option (List Agg × ℕ × Bool × World)
  gc_all env [] now chunk_min_ts metric_min_ts last_write w = some ([], 0, true, w)
  gc_all env (g ∷ gs) now chunk_min_ts metric_min_ts last_write w = do
    (g', p, s, w') ← agg_gc env g now chunk_min_ts metric_min_ts last_write w
    (gs', points, stale, w'') ← gc_all env gs now chunk_min_ts metric_min_ts last_write w'
    some (g' ∷ gs', add32 p points, s && stale, w'')

  unfoldable pub gc_aggregators :
      Env → AggMetric Agg → ℕ → ℕ → ℕ → World → Option (AggMetric Agg × ℕ × Bool × World)
  unfolding gc_all
  gc_aggregators env a now chunk_min_ts metric_min_ts w = do
    (gs, points, stale, w') ← gc_all env a.aggregators now chunk_min_ts metric_min_ts a.last_write w
    some (record a { aggregators = gs }, points, stale, w')

  -- The flush of the reorder buffer in `GC`, which keeps the time of the last write.
  unfoldable pub flush_rob : Env → AggMetric Agg → World → Option (AggMetric Agg × World)
  unfolding add_points
  flush_rob env a w = elim a.rob [
    | none ↦ some (a, w)
    | some rob ↦
        let (points, rob') = Reorder.flush rob in
        add_points env (record a { rob = some rob' }) points w >>= λ r.
        some (record (r.0) { last_write = a.last_write }, r.1)
  ]

  unfoldable pub sum_points : List Chunk → ℕ
  sum_points [] = 0
  sum_points (c ∷ cs) = add32 c.num_points (sum_points cs)

  -- The end of `GC`, for a metric that is collectable and has chunks.
  unfoldable pub gc_chunks :
      Env → AggMetric Agg → ℕ → ℕ → ℕ → World → Option (AggMetric Agg × ℕ × Bool × World)
  unfolding close gc_aggregators sum_points
  gc_chunks env a now chunk_min_ts metric_min_ts w = do
    current ← get_elem? a.chunks a.current_chunk_pos
    (a', w') ←
        (if not current.series.finished
          then close env a a.current_chunk_pos current w
          else some (a, w))
    (a'', p, stale, w'') ← gc_aggregators env a' now chunk_min_ts metric_min_ts w'
    some (a'', add32 (sum_points a'.chunks) p, stale && ltb a''.last_write metric_min_ts, w'')

  -- `GC`: the metric, its point count, and whether it is stale.
  unfoldable pub gc :
      Env → AggMetric Agg → ℕ → ℕ → ℕ → World → Option (AggMetric Agg × ℕ × Bool × World)
  unfolding collectable flush_rob gc_chunks
  gc env a now chunk_min_ts metric_min_ts w = do
    before ← collectable a now chunk_min_ts
    if not before then some (a, 0, false, w) else do
      (a', w') ← flush_rob env a w
      if length a'.chunks == 0 then gc_aggregators env a' now chunk_min_ts metric_min_ts w' else do
        after ← collectable a' now chunk_min_ts
        if not after
            then some (a', 0, false, w')
            else gc_chunks env a' now chunk_min_ts metric_min_ts w'
