-- ===== src/Api/Target.antt =====
-- `newRequestContext`, `getSeriesFixed` and `getTarget` of api/dataprocessor.go: the range that is
-- fetched for a request, and what becomes of the points. `none` is an error, or a panic that
-- `doRecover` turns into one. The requests are those that are not cancelled.
pub mod Lower
pub mod Times
pub mod Context
pub mod Canonical
use metrictank.Common.{
  ℕ, ◌+◌, ◌-◌, ◌*◌, Bool, List, [], Option, none, some, ltb, ◌==◌, if◌then◌else◌,
}
use metrictank.Common.Words.{add32, sub32, mul32}
use metrictank.Schema.{Point, AmKey}
use metrictank.Schema.Archive.{new_archive}
use metrictank.Consolidation.{Consolidator, no_consolidation, avg, sum, cnt, consolidate_by}
use metrictank.Consolidation
use metrictank.Batch.{BatchOps}
use metrictank.Mdata.AggMetric.{◌>>=◌}
use metrictank.Api.Fix.{align_forward, align_backward, fix, divide}
use metrictank.Api.Request.{Req}

-- `requestContext`, less the request itself.
pub record RequestContext : Type 0 where
  pub cons : Consolidator
  pub from : ℕ
  pub to : ℕ
  pub am_key : AmKey

-- The first part of `newRequestContext`: the range and the key for the archive.
unfoldable pub archive_context : Req → Consolidator → Option RequestContext
archive_context req cons =
    if req.archive == 0
    then some (record {
      cons = cons;
      from = add32 (align_backward req.from req.arch_interval) 1;
      to = add32 (align_backward req.to req.arch_interval) 1;
      am_key = record { mkey = req.mkey; archive = 0 };
    })
    else (Consolidation.archive cons >>= λ method. some (record {
      cons = cons;
      from = req.from;
      to = req.to;
      am_key = record { mkey = req.mkey; archive = new_archive method req.arch_interval };
    }))

-- `newRequestContext`: with points to consolidate, the range is that of whole groups. `none` is the
-- panic for a range that starts too early, and that for a consolidator with no archive.
unfoldable pub new_request_context : Req → Consolidator → Option RequestContext
unfolding archive_context
new_request_context req cons = archive_context req cons >>= λ rc.
    let boundary = align_forward rc.from req.out_interval in
    let rewind = mul32 req.agg_num req.arch_interval in
    if ltb 1 req.agg_num
    then (if ltb boundary rewind
        then none
        else some (record rc {
          from = add32 (sub32 boundary rewind) 1;
          to = add32 (align_backward rc.to req.out_interval) 1;
        }))
    else some rc

-- What `getSeries` and `itersToPoints` find for a range.
abbrev pub Fetch : Type 0
Fetch = RequestContext → Option (List Point)

module _ (ops : BatchOps) (fetch : Fetch) where
  open ops use {nan, f_div}

  -- `getSeriesFixed`.
  unfoldable pub get_series_fixed : Req → Consolidator → Option (List Point)
  unfolding new_request_context
  get_series_fixed req cons = new_request_context req cons >>= λ rc.
      if rc.from == rc.to
      then some []
      else (fetch rc >>= λ points. fix nan points rc.from rc.to req.arch_interval)

  -- `ConsolidateContext`, where `getTarget` calls it.
  unfoldable pub normalized : Req → Consolidator → List Point → Option (List Point)
  unfolding consolidate_by
  normalized req cons points =
      if ltb 1 req.agg_num then consolidate_by ops points req.agg_num cons else some points

  -- The points of one consolidator.
  unfoldable pub get_one : Req → Consolidator → Consolidator → Option (List Point)
  unfolding get_series_fixed normalized
  get_one req read cons = get_series_fixed req read >>= λ points. normalized req cons points

  -- The points of an average, of which the sums and the counts are stored.
  unfoldable pub get_average : Req → Option (List Point)
  unfolding get_series_fixed normalized
  get_average req = get_series_fixed req sum >>= λ sums. get_series_fixed req cnt >>= λ counts.
      normalized req sum sums >>= λ sums'.
      normalized req sum counts >>= λ counts'. divide f_div sums' counts'

  -- The branches of `getTarget` for an archive of rollups.
  unfoldable pub get_rollup : Consolidator → Req → Option (List Point)
  get_rollup avg req = get_average req
  get_rollup cons req = get_one req cons cons

  -- `getTarget`: the points of the series.
  unfoldable pub get_target : Req → Option (List Point)
  get_target req =
      if req.archive == 0
      then get_one req no_consolidation req.consolidator
      else get_rollup req.consolidator req
