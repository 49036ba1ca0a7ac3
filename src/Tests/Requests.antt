-- ===== src/Tests/Requests.antt =====
-- The requests of api/ on concrete values.
use metrictank.Common.{
  ℕ, ◌-◌, ◌*◌, ◌<◌, ◌≡◌, ◌⊎◌, ◌≢◌, inl, inr, refl, true, false, List, [], ◌∷◌, map, some, none,
  arith, All,
}
use metrictank.Common.Words.{sub32}
use metrictank.Schema.{Point}
use metrictank.Conf.Retention.{Retention}
use metrictank.Consolidation.{sum, no_consolidation}
use metrictank.Tests.Consolidate.{small_ops}
use metrictank.Util.Lcm.{lcm}
use metrictank.Util.Lcm.Least.{LcmOf}
use metrictank.Util.Combinations.{all_combinations}
use metrictank.Api.Fix.{fix}
use metrictank.Api.Fix.Align.{multiples_below}
use metrictank.Api.Fix.Slots.{grid}
use metrictank.Api.Fix.Grid.{fix-grid}
use metrictank.Api.Request.{Req, new_req, plan, points_fetch}
use metrictank.Api.Target.{Fetch, get_target}
use metrictank.Api.Target.Times.{times, timestamps}
use metrictank.Api.Target.Context.{Planned}
use metrictank.Api.Target.Canonical.{get_target-canonical}
use metrictank.Api.Plan.{
  distinct, plan_each, plan_highest_res_single, plan_highest_res_multi, plan_lowest_res_multi,
}
use metrictank.Api.Plan.Choice.{AllReady, IsBest, plan_highest_res_single-IsBest}
use metrictank.Api.Plan.Multi.{Outputs, plan_highest_res_multi-Outputs}
use metrictank.Api.Plan.Unplanned.{plan_lowest_res_multi_unplanned}

-- Values that are counts, with 999 for the null; two points within ten seconds, and a gap.
abbrev nan : ℕ
nan = 999

abbrev raw_points : List Point
raw_points =
    record { val = 1; ts = 31 }
    ∷ record { val = 2; ts = 40 }
    ∷ record { val = 3; ts = 42 }
    ∷ record { val = 4; ts = 69 }
    ∷ []

fix_run :
    fix nan raw_points 35 71 10
    ≡ some (
        record { val = 1; ts = 40 }
        ∷ record { val = 3; ts = 50 }
        ∷ record { val = nan; ts = 60 }
        ∷ record { val = 4; ts = 70 }
        ∷ [])
unfolding fix
fix_run = refl

fix-grid_example :
    fix nan raw_points 35 71 10
    ≡ some (
        grid nan
          (multiples_below 35 10 * 10)
          (multiples_below 71 10 - multiples_below 35 10)
          10
          raw_points)
fix-grid_example =
    fix-grid nan raw_points 35 71 10 (omega arith) (omega arith) (omega arith) (omega arith)
      (omega arith)

abbrev finds_raw : Fetch
finds_raw = λ rc. some raw_points

-- A request for 10s data in groups of three.
abbrev request : Req
request = record {
  mkey = 1;
  target = 0;
  pattern = 0;
  from = 55;
  to = 115;
  max_points = 100;
  pn_group = 0;
  raw_interval = 10;
  consolidator = sum;
  cons_req = sum;
  schema_id = 0;
  agg_id = 0;
  archive = 0;
  arch_interval = 10;
  ttl = 1000;
  out_interval = 30;
  agg_num = 3;
}

request-Planned : Planned request
request-Planned = omega arith

not_none : sum ≢ no_consolidation
not_none e = cc

get_target-canonical_example :
    (out : List Point) × (get_target small_ops finds_raw request ≡ some out)
    × (timestamps out
        ≡ times (multiples_below 55 30 * 30) (multiples_below 115 30 - multiples_below 55 30) 30)
get_target-canonical_example =
    get_target-canonical small_ops finds_raw request request-Planned (inl (refl, inr not_none))
      (λ rc some_range. (raw_points, refl, omega arith))

-- Ten seconds for an hour, and a minute for a day.
abbrev retentions : List Retention
retentions =
    record {
      seconds_per_point = 10;
      number_of_points = 360;
      chunk_span = 600;
      num_chunks = 2;
      ready = 0;
    }
    ∷ record {
      seconds_per_point = 60;
      number_of_points = 1440;
      chunk_span = 600;
      num_chunks = 2;
      ready = 0;
    }
    ∷ []

abbrev rets_of : Req → List Retention
rets_of req = retentions

abbrev fresh : Req
fresh = new_req 1 0 0 1000 9000 100 10 1 sum sum 0 0

plan_run : (plan_highest_res_single rets_of 9000 1000 fresh).0.arch_interval ≡ 60
unfolding plan_highest_res_single new_req
plan_run = refl

plan_highest_res_single-IsBest_example :
    (AllReady retentions 1000 (λ j ret. ⊥)
      × (plan_highest_res_single rets_of 9000 1000 fresh ≡ (fresh, false)))
    ⊎ ((pos : ℕ) × (ret : Retention) × IsBest retentions 1000 (sub32 9000 1000) pos ret
        × (plan_highest_res_single rets_of 9000 1000 fresh ≡ (plan fresh pos ret, true)))
plan_highest_res_single-IsBest_example = plan_highest_res_single-IsBest rets_of 9000 1000 fresh

-- Two series of 10 and of 15 seconds, read raw.
abbrev two_requests : List Req
two_requests = fresh ∷ record fresh { raw_interval = 15 } ∷ []

abbrev intervals : List Req → List ℕ
intervals = map (λ (r : Req). r.arch_interval)

first_ret : Retention
first_ret = record {
  seconds_per_point = 10;
  number_of_points = 360;
  chunk_span = 600;
  num_chunks = 2;
  ready = 0;
}

abbrev raw_10 : Req
raw_10 = plan fresh 0 first_ret

abbrev raw_15 : Req
raw_15 = plan (record fresh { raw_interval = 15 }) 0 first_ret

plan_each_run : plan_each rets_of 1500 1000 two_requests ≡ some (raw_10 ∷ raw_15 ∷ [])
unfolding plan_each new_req plan first_ret
plan_each_run = refl

intervals-pos : All (λ (r : Req). 0 < r.arch_interval) (raw_10 ∷ raw_15 ∷ [])
unfolding plan new_req first_ret
intervals-pos = omega arith

plan_highest_res_multi-Outputs_example :
    (interval : ℕ) × (reqs' : List Req) × (plan_highest_res_multi rets_of 1500 1000 two_requests
      ≡ some (reqs', true))
    × LcmOf (distinct [] (intervals (raw_10 ∷ raw_15 ∷ []))) interval
    × All (Outputs interval) reqs'
unfolding plan new_req first_ret distinct
plan_highest_res_multi-Outputs_example =
    plan_highest_res_multi-Outputs rets_of 1500 1000 two_requests raw_10 (raw_15 ∷ []) plan_each_run
      intervals-pos (omega arith)

-- `NewReq` leaves the ttl at 0, so the requests of a group stay as they are, with no interval, where
-- `PointsFetch` then divides by 0.
lowest_run :
    plan_lowest_res_multi rets_of (λ id. retentions) (0 ∷ []) 9000 1000 9000 100 (fresh ∷ [])
    ≡ some (fresh ∷ [], true)
unfolding plan_lowest_res_multi new_req lcm all_combinations
lowest_run = refl

fetch_run : points_fetch fresh ≡ none
unfolding points_fetch new_req
fetch_run = refl

fresh-short : All (λ (req : Req). req.ttl < sub32 9000 1000) (fresh ∷ [])
unfolding new_req
fresh-short = omega arith

plan_lowest_res_multi_unplanned_example :
    let result =
      plan_lowest_res_multi rets_of (λ id. retentions) (0 ∷ []) 9000 1000 9000 100 (fresh ∷ []) in
    (result ≡ none) ⊎ ((result ≡ some ([], false)) ⊎ (result ≡ some (fresh ∷ [], true)))
plan_lowest_res_multi_unplanned_example =
    plan_lowest_res_multi_unplanned rets_of (λ id. retentions) (0 ∷ []) 9000 1000 9000 100
      (fresh ∷ []) fresh-short
