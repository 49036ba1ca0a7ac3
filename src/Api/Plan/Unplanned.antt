-- ===== src/Api/Plan/Unplanned.antt =====
-- `planLowestResForMDPMulti` of api/query_engine.go looks at the ttl that the requests have before
-- it plans them.
use metrictank.Common.{
  ℕ, ◌<◌, ◌-◌, ◌/◌, ◌≡◌, ◌⊎◌, inl, inr, refl, true, false, ◌&&◌, List, [], ◌∷◌, reverse, none, some,
  leb, ◌==◌, if◌then◌else◌, arith, All, Bool-cases, Option-cases,
}
use metrictank.Common.Words.{u32_mod, sub32, mul32}
use metrictank.Conf.Retention.{Retention}
use metrictank.Mdata.AggMetric.{◌>>=◌}
use metrictank.Util.Combinations.{all_combinations}
use metrictank.Api.Request.{Req}
use metrictank.Api.Plan.{
  numbered, interval_sets, best_interval, plan_to, plan_all_to, plan_lowest_res_multi,
}

module _ (rets_of : Req → List Retention) (interval from min_ttl : ℕ) where
  plan_to_short :
      (rets : List (ℕ × Retention)) (req : Req)
      → req.ttl < min_ttl
      → plan_to rets_of interval from min_ttl rets req ≡ some req
  unfolding plan_to
  plan_to_short [] req h = refl
  plan_to_short ((i, ret) ∷ rets) req h =
      let e : (leb ret.ready from && leb min_ttl req.ttl) ≡ false = ground arith in
      rw e (plan_to_short rets req h)

  plan_all_to_short :
      (reqs : List Req)
      → All (λ (req : Req). req.ttl < min_ttl) reqs
      → plan_all_to rets_of interval from min_ttl reqs ≡ some reqs
  unfolding plan_all_to
  plan_all_to_short [] h = refl
  plan_all_to_short (req ∷ reqs) h =
      rw
        (
          plan_to_short (reverse (numbered 0 (rets_of req))) req h.0,
          ◌>>=◌,
          plan_all_to_short reqs h.1,
        )
        refl

-- For requests whose ttl is shorter than the time since the start, as it is in every request that
-- was not planned before, `planLowestResForMDPMulti` plans none: it panics, is not ok, or hands the
-- requests back as they were and says that it is ok.
pub plan_lowest_res_multi_unplanned :
    (rets_of : Req → List Retention) (schema_rets : ℕ → List Retention) (ids : List ℕ)
    (now from to mdp : ℕ) (reqs : List Req)
    → All (λ (req : Req). req.ttl < sub32 now from) reqs
    → (plan_lowest_res_multi rets_of schema_rets ids now from to mdp reqs ≡ none)
      ⊎ ((plan_lowest_res_multi rets_of schema_rets ids now from to mdp reqs ≡ some ([], false))
          ⊎ (plan_lowest_res_multi rets_of schema_rets ids now from to mdp reqs
              ≡ some (reqs, true)))
unfolding plan_lowest_res_multi
plan_lowest_res_multi_unplanned rets_of schema_rets ids now from to mdp reqs short =
    elim (Bool-cases (mdp == 0)) [
      | inl z ↦ rw z (inl refl)
      | inr nz ↦ elim (Option-cases (interval_sets schema_rets from (sub32 now from) ids [])) [
        | inl e ↦ rw (nz, e) (inr (inl refl))
        | inr (sets, e) ↦ elim (Option-cases (all_combinations sets)) [
          | inl e' ↦ rw (nz, e, e', ◌>>=◌) (inl refl)
          | inr (combos, e') ↦
              elim (Option-cases (
                best_interval rets_of (mul32 2 (sub32 to from) / mdp) from (sub32 now from) reqs
                  combos 0 (u32_mod - 1) 0)) [
                    | inl e'' ↦ rw (nz, e, e', ◌>>=◌, e'') (inl refl)
                    | inr (best, e'') ↦
                        rw
                          (
                            nz,
                            e,
                            e',
                            ◌>>=◌,
                            e'',
                            plan_all_to_short rets_of (if best.0 == 0 then best.1 else best.0) from
                                (sub32 now from) reqs short,
                          )
                          (inr (inr refl))
                  ]
        ]
      ]
    ]
