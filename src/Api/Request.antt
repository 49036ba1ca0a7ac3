-- ===== src/Api/Request.antt =====
-- api/models/request.go: a request for the data of one metric, and how it is planned. The texts of
-- the request are only passed on and may be any numbers; its node is left out.
use metrictank.Common.{
  ℕ, ◌+◌, ◌/◌, ◌%◌, ◌&&◌, List, [], ◌∷◌, Option, none, some, ltb, leb, ◌==◌, if◌then◌else◌, drop,
}
use metrictank.Common.Words.{u32_mod, sub32}
use metrictank.Conf.Retention.{Retention, max_retention}
use metrictank.Consolidation.{Consolidator, agg_every}

-- `Req`.
pub record Req : Type 0 where
  pub mkey : ℕ
  pub target : ℕ
  pub pattern : ℕ
  pub from : ℕ
  pub to : ℕ
  pub max_points : ℕ
  pub pn_group : ℕ
  pub raw_interval : ℕ
  pub consolidator : Consolidator
  pub cons_req : Consolidator
  pub schema_id : ℕ
  pub agg_id : ℕ
  pub archive : ℕ
  pub arch_interval : ℕ
  pub ttl : ℕ
  pub out_interval : ℕ
  pub agg_num : ℕ

-- `NewReq`.
unfoldable pub new_req : ℕ → ℕ → ℕ → ℕ → ℕ → ℕ → ℕ → ℕ → Consolidator → Consolidator → ℕ → ℕ → Req
new_req key target patt from to max_points raw_interval pn_group cons cons_req schema_id agg_id =
    record {
      mkey = key;
      target = target;
      pattern = patt;
      from = from;
      to = to;
      max_points = max_points;
      pn_group = pn_group;
      raw_interval = raw_interval;
      consolidator = cons;
      cons_req = cons_req;
      schema_id = schema_id;
      agg_id = agg_id;
      archive = 0;
      arch_interval = 0;
      ttl = 0;
      out_interval = 0;
      agg_num = 0;
    }

-- `Plan`. The archive's number is a byte.
unfoldable pub plan : Req → ℕ → Retention → Req
plan r i ret =
    let interval = if i == 0 then r.raw_interval else ret.seconds_per_point % u32_mod in
    record r {
      archive = i % 256;
      arch_interval = interval;
      ttl = max_retention ret % u32_mod;
      out_interval = interval;
      agg_num = 1;
    }

-- `PlanNormalization`; an interval of 0 of the archive panics.
unfoldable pub plan_normalization : Req → ℕ → Option Req
plan_normalization r interval =
    if r.arch_interval == 0
    then none
    else some (record r { out_interval = interval; agg_num = interval / r.arch_interval })

-- The loop of `AdjustTo` over the archives from number `i` on.
unfoldable pub find_rollup : ℕ → ℕ → ℕ → List Retention → Option (ℕ × Retention)
find_rollup interval from i [] = none
find_rollup interval from i (ret ∷ rets) =
    let rest = find_rollup interval from (i + 1) rets in
    if (interval == ret.seconds_per_point % u32_mod) && leb ret.ready from
    then some (i, ret)
    else rest

-- `AdjustTo`. The number of the archive behind the planned one is taken in a byte.
unfoldable pub adjust_to : Req → ℕ → ℕ → List Retention → Option Req
unfolding find_rollup plan plan_normalization
adjust_to r interval from rets =
    if r.arch_interval == interval
    then some r
    else elim (find_rollup interval from (r.archive + 1) (drop ((r.archive + 1) % 256) rets)) [
      | some (i, ret) ↦ some (plan r i ret)
      | none ↦ plan_normalization r interval
    ]

-- `PointsFetch`; an interval of 0 panics.
unfoldable pub points_fetch : Req → Option ℕ
points_fetch r = if r.arch_interval == 0 then none else some (sub32 r.to r.from / r.arch_interval)

-- `PointsReturn`.
unfoldable pub points_return : Req → ℕ → Option ℕ
points_return r plan_mdp =
    let points = sub32 r.to r.from / r.out_interval in
    if r.out_interval == 0
    then none
    else if ltb 0 plan_mdp && ltb plan_mdp points
    then elim (agg_every points plan_mdp) [
      | none ↦ none
      | some agg_num ↦ if agg_num == 0 then none else some (points / agg_num)
    ]
    else some points
