-- ===== src/Api/Plan/Multi.antt =====
-- `planHighestResMulti` of api/query_engine.go: requests that are planned together get one interval.
use native.Mathlib.Nat.{div-add-mod', mul_assoc, mul-mod_left, mod-zero}
use metrictank.Common.{
  ℕ, zero, suc, ◌+◌, ◌*◌, ◌/◌, ◌%◌, ◌^◌, ◌≤◌, ◌<◌, ◌≡◌, inl, inr, refl, sym, ap, ◌∙◌, true, false,
  ◌&&◌, List, [], ◌∷◌, map, drop, none, some, leb, ◌==◌, arith, All, Bool-cases, Option-cases,
  subst,
}
use metrictank.Common.Words.{u32_mod}
use metrictank.Conf.Retention.{Retention}
use metrictank.Mdata.AggMetric.{◌>>=◌}
use metrictank.Util.Lcm.Least.{LcmOf, lcm-LcmOf, product, product_pos}
use metrictank.Api.Request.{Req, plan, plan_normalization, find_rollup, adjust_to}
use metrictank.Api.Plan.{distinct, plan_each, adjust_each, plan_highest_res_multi}
use metrictank.Api.Plan.Distinct.{distinct-All, All-distinct, distinct_some}
use metrictank.Api.Plan.Choice.{plan_highest_res_single-IsBest}

-- A request whose points are not consolidated.
record IsFresh (r : Req) : Type 0 where
  one_point : r.agg_num ≡ 1
  same : r.out_interval ≡ r.arch_interval

-- A request with output of an interval, made of points of the archive that it reads.
pub record Outputs (interval : ℕ) (r : Req) : Type 0 where
  pub out : r.out_interval ≡ interval
  pub grouped : r.out_interval ≡ r.agg_num * r.arch_interval
  pub some_points : 0 < r.agg_num
  pub some_interval : 0 < r.arch_interval

find_rollup-some :
    (interval from i : ℕ) (rets : List Retention) {k : ℕ} {ret : Retention}
    → find_rollup interval from i rets ≡ some (k, ret)
    → (i ≤ k) × (interval ≡ ret.seconds_per_point % u32_mod)
unfolding find_rollup
find_rollup-some interval from i [] e = absurd (no e)
  where
    no : {a : ℕ × Retention} → none ≡ some a → ⊥
    no h = cc
find_rollup-some interval from i (r ∷ rets) {k} {ret} e =
    elim (Bool-cases ((interval == r.seconds_per_point % u32_mod) && leb r.ready from)) [
      | inl t ↦
          let h : some (i, r) ≡ some (k, ret) = rw t at e in
          let at_i : i ≡ k = cc in
          let same : r ≡ ret = cc in
          (
            omega (arith, at_i),
            subst (λ (x : Retention). interval ≡ x.seconds_per_point % u32_mod) same (ground arith),
          )
      | inr f ↦
          let (lo, same) =
            find_rollup-some interval from (i + 1) rets {k = k} {ret = ret} (rw f at e) in
          (omega (arith, lo), same)
    ]

plan-IsFresh : (r : Req) (i : ℕ) (ret : Retention) → IsFresh (plan r i ret)
unfolding plan
plan-IsFresh r i ret = record { one_point = refl; same = refl }

-- `AdjustTo` of a planned request, for a multiple of its interval.
adjust_to-Outputs :
    (r : Req) (interval from : ℕ) (rets : List Retention)
    → IsFresh r
    → 0 < r.arch_interval
    → 0 < interval
    → interval % r.arch_interval ≡ 0
    → (r' : Req) × (adjust_to r interval from rets ≡ some r') × Outputs interval r'
unfolding adjust_to plan plan_normalization
adjust_to-Outputs r interval from rets fresh pos some_out divides =
    elim (Bool-cases (r.arch_interval == interval)) [
      | inl e ↦
          let same : r.arch_interval ≡ interval = ground arith in
          let unit : 1 * r.arch_interval ≡ r.arch_interval = omega arith in
          (
            r,
            rw e refl,
            record {
              out = fresh.same ∙ same;
              grouped = fresh.same ∙ sym (ap (λ t. t * r.arch_interval) fresh.one_point ∙ unit);
              some_points = omega (arith, fresh.one_point);
              some_interval = pos;
            },
          )
      | inr e ↦
          elim (Option-cases
            (find_rollup interval from (r.archive + 1) (drop ((r.archive + 1) % 256) rets))) [
              | inl miss ↦
                  let nz : (r.arch_interval == 0) ≡ false = ground arith in
                  let whole : interval ≡ interval / r.arch_interval * r.arch_interval =
                    omega (arith, div-add-mod' interval r.arch_interval, divides) in
                  (
                    record r { out_interval = interval; agg_num = interval / r.arch_interval },
                    rw (e, miss, nz) refl,
                    record {
                      out = refl;
                      grouped = whole;
                      some_points = positive (interval / r.arch_interval) whole;
                      some_interval = pos;
                    },
                  )
              | inr ((k, ret), found) ↦
                  let (lo, same) =
                    find_rollup-some interval from (r.archive + 1)
                      (drop ((r.archive + 1) % 256) rets) {k = k} {ret = ret} found in
                  let nz : (k == 0) ≡ false = ground (arith, lo) in
                  let unit : 1 * interval ≡ interval = omega arith in
                  (
                    plan r k ret,
                    rw (e, found) refl,
                    rw (plan, nz)
                        (record {
                          out = sym same;
                          grouped = sym (omega arith);
                          some_points = omega arith;
                          some_interval = omega (arith, same);
                        }),
                  )
            ]
    ]
  where
    positive : (q : ℕ) → interval ≡ q * r.arch_interval → 0 < q
    positive zero h = absurd (omega (arith, h))
    positive (suc q) h = omega arith

adjust_each-Outputs :
    (rets_of : Req → List Retention) (interval from : ℕ) (reqs : List Req)
    → 0 < interval
    → All IsFresh reqs
    → All (λ (r : Req). 0 < r.arch_interval) reqs
    → All (λ i. interval % i ≡ 0) (map (λ (r : Req). r.arch_interval) reqs)
    → (reqs' : List Req) × (adjust_each rets_of interval from reqs ≡ some reqs')
      × All (Outputs interval) reqs'
unfolding adjust_each
adjust_each-Outputs rets_of interval from [] pos fresh some_intervals divides = ([], refl, tt)
adjust_each-Outputs rets_of interval from (r ∷ reqs) pos fresh some_intervals divides =
    let (r', e, out) =
      adjust_to-Outputs r interval from (rets_of r) fresh.0 some_intervals.0 pos divides.0 in
    let (reqs', e', outs) =
      adjust_each-Outputs rets_of interval from reqs pos fresh.1 some_intervals.1 divides.1 in
    (r' ∷ reqs', rw (e, ◌>>=◌, e') refl, (out, outs))

plan_each-IsFresh :
    (rets_of : Req → List Retention) (now from : ℕ) (reqs planned : List Req)
    → plan_each rets_of now from reqs ≡ some planned
    → All IsFresh planned
unfolding plan_each
plan_each-IsFresh rets_of now from [] planned e =
    let h : [] ≡ planned = cc in subst (All IsFresh) h tt
plan_each-IsFresh rets_of now from (r ∷ reqs) planned e =
    elim (plan_highest_res_single-IsBest rets_of now from r) [
      | inl (none_ready, same) ↦ absurd (no (rw same at e))
      | inr (pos, ret, best, same) ↦ elim (Option-cases (plan_each rets_of now from reqs)) [
        | inl missed ↦ absurd (no (rw (same, missed, ◌>>=◌) at e))
        | inr (rest, found) ↦
            let h : some (plan r pos ret ∷ rest) ≡ some planned = rw (same, found, ◌>>=◌) at e in
            let eq : plan r pos ret ∷ rest ≡ planned = cc in
            subst (All IsFresh) eq
              (plan-IsFresh r pos ret, plan_each-IsFresh rets_of now from reqs rest found)
      ]
    ]
  where
    no : none ≡ some planned → ⊥
    no h = cc

-- A product is a multiple of each factor.
product-multiple : (m : ℕ) (vals : List ℕ) → All (λ v. (m * product vals) % v ≡ 0) vals
product-multiple m [] = tt
product-multiple m (v ∷ vals) = (
  ap (λ t. t % v) {x = m * (v * product vals)} {y = m * product vals * v} (omega arith)
      ∙ mul-mod_left (m * product vals) v,
  subst (λ t. All (λ v. t % v ≡ 0) vals) (mul_assoc m v (product vals))
      (product-multiple (m * v) vals),
)

LcmOf-pos : (vals : List ℕ) (l : ℕ) → All (λ v. 0 < v) vals → LcmOf vals l → 0 < l
LcmOf-pos vals zero pos of =
    let e : 1 * product vals ≡ product vals = omega arith in
    let z =
      of.least (product vals)
        (subst (λ t. All (λ v. t % v ≡ 0) vals) e (product-multiple 1 vals)) in
    absurd (omega (arith, product_pos vals pos, z, mod-zero (product vals)))
LcmOf-pos vals (suc l) pos of = omega arith

-- When every request has an archive that is ready, and the archives' intervals are not 0 and their
-- distinct ones have a product below 2^32, `planHighestResMulti` is ok, and every request that it
-- returns has the same interval of output, the least common multiple of the archives' intervals,
-- and consolidates just as many points of the archive that it reads, one at least, as make it up.
pub plan_highest_res_multi-Outputs :
    (rets_of : Req → List Retention) (now from : ℕ) (reqs : List Req) (r : Req) (planned : List Req)
    → plan_each rets_of now from reqs ≡ some (r ∷ planned)
    → All (λ (r : Req). 0 < r.arch_interval) (r ∷ planned)
    → product (distinct [] (map (λ (r : Req). r.arch_interval) (r ∷ planned))) < 2 ^ 32
    → (interval : ℕ) × (reqs' : List Req) × (plan_highest_res_multi rets_of now from reqs
        ≡ some (reqs', true))
      × LcmOf (distinct [] (map (λ (r : Req). r.arch_interval) (r ∷ planned))) interval
      × All (Outputs interval) reqs'
unfolding plan_highest_res_multi
plan_highest_res_multi-Outputs rets_of now from reqs r planned e pos fits =
    let intervals = map (λ (r : Req). r.arch_interval) (r ∷ planned) in
    let (v, vals, split) =
      distinct_some r.arch_interval (map (λ (r : Req). r.arch_interval) planned) in
    let all_pos =
      subst (All (λ v. 0 < v)) split
        (distinct-All (λ v. 0 < v) [] intervals tt (map_pos (r ∷ planned) pos)) in
    let (interval, found, of) =
      lcm-LcmOf v vals all_pos (subst (λ l. product l < 2 ^ 32) split fits) in
    let of' = subst (λ l. LcmOf l interval) (sym split) of in
    let (reqs', done, outs) =
      adjust_each-Outputs rets_of interval from (r ∷ planned)
        (LcmOf-pos (v ∷ vals) interval all_pos of)
        (plan_each-IsFresh rets_of now from reqs (r ∷ planned) e) pos
        (All-distinct (λ i. interval % i ≡ 0) [] intervals of'.multiple).1 in
    (interval, reqs', rw (plan_highest_res_multi, e, split, found, ◌>>=◌, done) refl, of', outs)
  where
    map_pos :
        (reqs : List Req)
        → All (λ (r : Req). 0 < r.arch_interval) reqs
        → All (λ v. 0 < v) (map (λ (r : Req). r.arch_interval) reqs)
    map_pos [] a = tt
    map_pos (r ∷ reqs) a = (a.0, map_pos reqs a.1)
