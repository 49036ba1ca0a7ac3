-- ===== src/Api/Plan.antt =====
-- api/query_engine.go: which archive is read for a request, so that the points are few enough and
-- are still kept. `rets_of` are the retentions of the schema of a request. `none` is a panic; a
-- result that is not ok has no request.
pub mod Choice
pub mod Distinct
pub mod Multi
pub mod Unplanned
use metrictank.Common.{
  ℕ, zero, suc, ◌+◌, ◌-◌, ◌*◌, ◌/◌, ◌%◌, Bool, true, false, ◌&&◌, ◌||◌, List, [], ◌∷◌, ◌++◌, map,
  reverse, Option, none, some, ltb, leb, ◌==◌, if◌then◌else◌,
}
use metrictank.Common.Words.{u32_mod, sub32, mul32}
use metrictank.Conf.Retention.{Retention, max_retention}
use metrictank.Mdata.AggMetric.{◌>>=◌}
use metrictank.Util.Lcm.{lcm}
use metrictank.Util.Combinations.{all_combinations}
use metrictank.Api.Request.{Req, plan, plan_normalization, adjust_to, points_fetch}

-- The loop of `planHighestResSingle` over the archives from number `i` on.
unfoldable pub highest_res : ℕ → ℕ → ℕ → List Retention → Req → Bool → Req × Bool
unfolding plan
highest_res from min_ttl i [] req done = (req, done)
highest_res from min_ttl i (ret ∷ rets) req done =
    let skipped = highest_res from min_ttl (i + 1) rets req done in
    let further = highest_res from min_ttl (i + 1) rets (plan req i ret) true in
    if ltb from ret.ready
    then skipped
    else if leb min_ttl (plan req i ret).ttl
    then (plan req i ret, true)
    else further

-- The archives with their numbers, the last first.
unfoldable pub numbered : ℕ → List Retention → List (ℕ × Retention)
numbered i [] = []
numbered i (ret ∷ rets) = (i, ret) ∷ numbered (i + 1) rets

-- The loop of `planLowestResForMDPSingle`, from the last archive on.
unfoldable pub lowest_res : ℕ → ℕ → List (ℕ × Retention) → Req → Bool → Option (Req × Bool)
unfolding plan points_fetch
lowest_res from mdp [] req done = some (req, done)
lowest_res from mdp ((i, ret) ∷ rets) req done =
    let skipped = lowest_res from mdp rets req done in
    let further = lowest_res from mdp rets (plan req i ret) true in
    if ltb from ret.ready
    then skipped
    else (points_fetch (plan req i ret) >>= λ points.
        if leb (mdp / 2) points then some (plan req i ret, true) else further)

-- The distinct intervals, in the order in which they are seen.
unfoldable pub is_seen : ℕ → List ℕ → Bool
is_seen x [] = false
is_seen x (y ∷ ys) = x == y || is_seen x ys

unfoldable pub distinct : List ℕ → List ℕ → List ℕ
unfolding is_seen
distinct seen [] = seen
distinct seen (x ∷ xs) = distinct (if is_seen x seen then seen else seen ++ x ∷ []) xs

-- Texts of numbers that are the same (`reflect.DeepEqual`), and the lists that differ.
unfoldable pub same_list : List ℕ → List ℕ → Bool
same_list [] [] = true
same_list (x ∷ xs) (y ∷ ys) = x == y && same_list xs ys
same_list xs ys = false

unfoldable pub is_listed : List ℕ → List (List ℕ) → Bool
unfolding same_list
is_listed v [] = false
is_listed v (w ∷ ws) = same_list w v || is_listed v ws

-- The intervals of a schema that are ready and kept for long enough.
unfoldable pub valid_intervals : ℕ → ℕ → List Retention → List ℕ
valid_intervals from min_ttl [] = []
valid_intervals from min_ttl (ret ∷ rets) =
    let rest = valid_intervals from min_ttl rets in
    if leb ret.ready from && leb min_ttl (max_retention ret)
    then (ret.seconds_per_point % u32_mod) ∷ rest
    else rest

-- The loop over the schemas; `none` is a schema with no valid interval.
unfoldable pub interval_sets :
    (ℕ → List Retention) → ℕ → ℕ → List ℕ → List (List ℕ) → Option (List (List ℕ))
unfolding valid_intervals is_listed
interval_sets schema_rets from min_ttl [] sets = some sets
interval_sets schema_rets from min_ttl (id ∷ ids) sets =
    let valid = valid_intervals from min_ttl (schema_rets id) in
    let sets' = if is_listed valid sets then sets else sets ++ valid ∷ [] in
    let rest = interval_sets schema_rets from min_ttl ids sets' in
    elim valid [ [] ↦ none | v ∷ vs ↦ rest ]

-- The score of a candidate interval over the archives of a request. An archive of no seconds panics.
unfoldable pub score_of : ℕ → ℕ → ℕ → ℕ → List Retention → Option ℕ
score_of candidate from min_ttl ttl [] = some 0
score_of candidate from min_ttl ttl (ret ∷ rets) =
    let seconds = ret.seconds_per_point % u32_mod in
    score_of candidate from min_ttl ttl rets >>= λ score.
    if seconds == 0
    then none
    else if leb seconds candidate
        && (candidate % seconds == 0)
        && leb ret.ready from
        && leb min_ttl ttl
    then some (score + ret.seconds_per_point)
    else some score

module _ (rets_of : Req → List Retention) where
  -- `planHighestResSingle`.
  unfoldable pub plan_highest_res_single : ℕ → ℕ → Req → Req × Bool
  unfolding highest_res
  plan_highest_res_single now from req = highest_res from (sub32 now from) 0 (rets_of req) req false

  -- `planLowestResForMDPSingle`.
  unfoldable pub plan_lowest_res_single : ℕ → ℕ → Req → Option (Req × Bool)
  unfolding lowest_res numbered
  plan_lowest_res_single from mdp req =
      lowest_res from mdp (reverse (numbered 0 (rets_of req))) req false

  -- The first loop of `planHighestResMulti`: every request planned alone, or none.
  unfoldable pub plan_each : ℕ → ℕ → List Req → Option (List Req)
  unfolding plan_highest_res_single
  plan_each now from [] = some []
  plan_each now from (req ∷ reqs) =
      let (req', done) = plan_highest_res_single now from req in
      let rest = plan_each now from reqs in
      if done then (rest >>= λ reqs'. some (req' ∷ reqs')) else none

  -- Its second loop.
  unfoldable pub adjust_each : ℕ → ℕ → List Req → Option (List Req)
  adjust_each interval from [] = some []
  adjust_each interval from (req ∷ reqs) = adjust_to req interval from (rets_of req) >>= λ req'.
      adjust_each interval from reqs >>= λ reqs'. some (req' ∷ reqs')

  -- `planHighestResMulti`.
  unfoldable pub plan_highest_res_multi : ℕ → ℕ → List Req → Option (List Req × Bool)
  unfolding plan_each adjust_each distinct
  plan_highest_res_multi now from reqs = elim (plan_each now from reqs) [
    | none ↦ some ([], false)
    | some planned ↦ lcm (distinct [] (map (λ (r : Req). r.arch_interval) planned)) >>= λ interval.
        adjust_each interval from planned >>= λ reqs'. some (reqs', true)
  ]

  -- The score over all requests.
  unfoldable pub total_score : ℕ → ℕ → ℕ → List Req → Option ℕ
  unfolding score_of
  total_score candidate from min_ttl [] = some 0
  total_score candidate from min_ttl (req ∷ reqs) =
      score_of candidate from min_ttl req.ttl (rets_of req) >>= λ score.
      total_score candidate from min_ttl reqs >>= λ scores. some (score + scores)

  -- The loop of `planLowestResForMDPMulti` over the combinations: the best score with its interval,
  -- and the lowest interval.
  unfoldable pub best_interval : ℕ → ℕ → ℕ → List Req → List (List ℕ) → ℕ → ℕ → ℕ → Option (ℕ × ℕ)
  unfolding total_score
  best_interval max_interval from min_ttl reqs [] max_score lowest interval =
      some (interval, lowest)
  best_interval max_interval from min_ttl reqs (combo ∷ combos) max_score lowest interval =
      lcm combo >>= λ candidate.
      let passed = best_interval max_interval from min_ttl reqs combos max_score lowest interval in
      if leb candidate max_interval
      then (total_score candidate from min_ttl reqs >>= λ score.
          best_interval max_interval from min_ttl reqs combos
            (if ltb max_score score then score else max_score)
            (if ltb candidate lowest then candidate else lowest)
            (if ltb max_score score then candidate else interval))
      else passed

  -- The last loop of `planLowestResForMDPMulti` for a request, from its last archive on.
  unfoldable pub plan_to : ℕ → ℕ → ℕ → List (ℕ × Retention) → Req → Option Req
  unfolding plan plan_normalization
  plan_to interval from min_ttl [] req = some req
  plan_to interval from min_ttl ((i, ret) ∷ rets) req =
      let seconds = ret.seconds_per_point % u32_mod in
      let rest = plan_to interval from min_ttl rets req in
      if leb ret.ready from && leb min_ttl req.ttl
      then (if seconds == interval
          then some (plan req i ret)
          else if seconds == 0
          then none
          else if interval % seconds == 0
          then plan_normalization (plan req i ret) interval
          else rest)
      else rest

  unfoldable pub plan_all_to : ℕ → ℕ → ℕ → List Req → Option (List Req)
  unfolding plan_to numbered
  plan_all_to interval from min_ttl [] = some []
  plan_all_to interval from min_ttl (req ∷ reqs) =
      plan_to interval from min_ttl (reverse (numbered 0 (rets_of req))) req >>= λ req'.
      plan_all_to interval from min_ttl reqs >>= λ reqs'. some (req' ∷ reqs')

  -- `planLowestResForMDPMulti`. The schemas of the requests are `ids`, in the order in which the map
  -- of them is read, with the retentions of each.
  unfoldable pub plan_lowest_res_multi :
      (ℕ → List Retention) → List ℕ → ℕ → ℕ → ℕ → ℕ → List Req → Option (List Req × Bool)
  unfolding interval_sets best_interval plan_all_to
  plan_lowest_res_multi schema_rets ids now from to mdp reqs =
      let min_ttl = sub32 now from in
      if mdp == 0 then none else elim (interval_sets schema_rets from min_ttl ids []) [
        | none ↦ some ([], false)
        | some sets ↦ all_combinations sets >>= λ combos.
            best_interval (mul32 2 (sub32 to from) / mdp) from min_ttl reqs combos 0 (u32_mod - 1) 0
            >>= λ best.
                plan_all_to (if best.0 == 0 then best.1 else best.0) from min_ttl reqs >>= λ reqs'.
                some (reqs', true)
      ]
