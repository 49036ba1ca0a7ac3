-- ===== src/Api/Plan/Choice.antt =====
-- The archive that `planHighestResSingle` of api/query_engine.go chooses.
use metrictank.Common.{
  ℕ, zero, suc, ◌+◌, ◌%◌, ◌≤◌, ◌<◌, ◌≡◌, ◌⊎◌, inl, inr, refl, sym, ap, ◌∙◌, Bool, true, false, List,
  [], ◌∷◌, none, some, ltb, leb, get_elem?, arith, Bool-cases, subst,
}
use metrictank.Common.Words.{u32_mod, sub32}
use metrictank.Conf.Retention.{Retention, max_retention}
use metrictank.Api.Request.{Req, plan}
use metrictank.Api.Plan.{highest_res, plan_highest_res_single}

-- The ttl of a request that reads an archive.
abbrev pub ttl_of : Retention → ℕ
ttl_of ret = max_retention ret % u32_mod

-- Every archive that is ready at `from` satisfies the predicate, at its position.
abbrev pub AllReady : List Retention → ℕ → (ℕ → Retention → Type 0) → Type 0
AllReady rets from P =
    (j : ℕ) (ret : Retention) → get_elem? rets j ≡ some ret → ret.ready ≤ from → P j ret

-- The archive at a position is the finest one that is ready and keeps the data long enough, or else
-- the coarsest one that is ready.
pub record IsBest (rets : List Retention) (from min_ttl pos : ℕ) (ret : Retention) : Type 0 where
  pub there : get_elem? rets pos ≡ some ret
  pub is_ready : ret.ready ≤ from
  pub finest : AllReady rets from (λ j other. min_ttl ≤ ttl_of other → pos ≤ j)
  pub coarsest : ttl_of ret < min_ttl → AllReady rets from (λ j other. j ≤ pos)

abbrev Chosen : ℕ → List Retention → ℕ → ℕ → Req → Bool → Req × Bool → Type 0
Chosen i rets from min_ttl req done r =
    (AllReady rets from (λ j other. ⊥) × (r ≡ (req, done)))
    ⊎ ((pos : ℕ) × (ret : Retention) × IsBest rets from min_ttl pos ret
        × (r ≡ (plan req (i + pos) ret, true)))

plan-plan : (r : Req) (i j : ℕ) (a b : Retention) → plan (plan r i a) j b ≡ plan r j b
unfolding plan
plan-plan r i j a b = refl

module _ (from min_ttl : ℕ) (ret : Retention) (rets : List Retention) where
  head_same : (other : Retention) → get_elem? (ret ∷ rets) zero ≡ some other → ret ≡ other
  head_same other e = cc

  -- The first archive is passed over: the best is among the others.
  IsBest-skip :
      (pos : ℕ) (best : Retention)
      → (ret.ready ≤ from → ttl_of ret < min_ttl)
      → IsBest rets from min_ttl pos best
      → IsBest (ret ∷ rets) from min_ttl (suc pos) best
  IsBest-skip pos best short b = record {
    there = b.there;
    is_ready = b.is_ready;
    finest = finest';
    coarsest = coarsest';
  }
    where
      finest' : AllReady (ret ∷ rets) from (λ j other. min_ttl ≤ ttl_of other → suc pos ≤ j)
      finest' zero other e ready long =
          let same = head_same other e in
          let ready' = subst (λ (o : Retention). o.ready ≤ from) (sym same) ready in
          let long' = subst (λ (o : Retention). min_ttl ≤ ttl_of o) (sym same) long in
          absurd (omega (arith, short ready', long'))
      finest' (suc j) other e ready long = omega (arith, b.finest j other e ready long)

      coarsest' : ttl_of best < min_ttl → AllReady (ret ∷ rets) from (λ j other. j ≤ suc pos)
      coarsest' h zero other e ready = omega arith
      coarsest' h (suc j) other e ready = omega (arith, b.coarsest h j other e ready)

  -- The first archive keeps the data long enough.
  IsBest-long : ret.ready ≤ from → min_ttl ≤ ttl_of ret → IsBest (ret ∷ rets) from min_ttl zero ret
  IsBest-long ready long = record {
    there = refl;
    is_ready = ready;
    finest = λ j other e r l. omega arith;
    coarsest = λ h. absurd (omega (arith, h, long));
  }

  -- The first archive is the only one that is ready.
  IsBest-only :
      ret.ready ≤ from
      → ttl_of ret < min_ttl
      → AllReady rets from (λ j other. ⊥)
      → IsBest (ret ∷ rets) from min_ttl zero ret
  IsBest-only ready short others = record {
    there = refl;
    is_ready = ready;
    finest = λ j other e r l. omega arith;
    coarsest = λ h. coarsest';
  }
    where
      coarsest' : AllReady (ret ∷ rets) from (λ j other. j ≤ zero)
      coarsest' zero other e r = omega arith
      coarsest' (suc j) other e r = absurd (others j other e r)

  none_ready :
      from < ret.ready
      → AllReady rets from (λ j other. ⊥)
      → AllReady (ret ∷ rets) from (λ j other. ⊥)
  none_ready late others zero other e ready =
      let ready' = subst (λ (o : Retention). o.ready ≤ from) (sym (head_same other e)) ready in
      absurd (omega (arith, late, ready'))
  none_ready late others (suc j) other e ready = others j other e ready

highest_res-Chosen :
    (i from min_ttl : ℕ) (rets : List Retention) (req : Req) (done : Bool)
    → Chosen i rets from min_ttl req done (highest_res from min_ttl i rets req done)
unfolding highest_res
highest_res-Chosen i from min_ttl [] req done = inl (λ j other e r. no j other e, refl)
  where
    no : (j : ℕ) (other : Retention) → none ≡ some other → ⊥
    no j other e = cc
highest_res-Chosen i from min_ttl (ret ∷ rets) req done = elim (Bool-cases (ltb from ret.ready)) [
  | inl late ↦
      let late' : from < ret.ready = ground arith in
      rw late (elim (highest_res-Chosen (i + 1) from min_ttl rets req done) [
        | inl (others, same) ↦ inl (none_ready from min_ttl ret rets late' others, same)
        | inr (pos, best, b, e) ↦ inr (
          suc pos,
          best,
          IsBest-skip from min_ttl ret rets pos best (λ r. absurd (omega (arith, late', r))) b,
          e ∙ ap (λ k. (plan req k best, true)) (omega arith),
        )
      ])
  | inr here ↦
      let ready : ret.ready ≤ from = ground arith in
      elim (Bool-cases (leb min_ttl (plan req i ret).ttl)) [
        | inl long ↦
            rw (here, long)
              (inr (
                zero,
                ret,
                IsBest-long from min_ttl ret rets ready (long_enough long),
                ap (λ k. (plan req k ret, true)) (omega arith),
              ))
        | inr short ↦
            let short' : ttl_of ret < min_ttl = too_short short in
            rw (here, short)
              (elim (highest_res-Chosen (i + 1) from min_ttl rets (plan req i ret) true) [
                | inl (others, same) ↦ inr (
                  zero,
                  ret,
                  IsBest-only from min_ttl ret rets ready short' others,
                  same ∙ ap (λ k. (plan req k ret, true)) (omega arith),
                )
                | inr (pos, best, b, e) ↦ inr (
                  suc pos,
                  best,
                  IsBest-skip from min_ttl ret rets pos best (λ r. short') b,
                  e
                      ∙ ap (λ r. (r, true)) (plan-plan req i (i + 1 + pos) ret best)
                      ∙ ap (λ k. (plan req k best, true)) (omega arith),
                )
              ])
      ]
]
  where
    long_enough : leb min_ttl (plan req i ret).ttl ≡ true → min_ttl ≤ ttl_of ret
    long_enough h = ground arith

    too_short : leb min_ttl (plan req i ret).ttl ≡ false → ttl_of ret < min_ttl
    too_short h = ground arith

-- `planHighestResSingle` is ok exactly when an archive is ready at the start of the request. Then
-- it plans the request to read the finest archive that is ready and keeps the data since the start,
-- or, if no ready one does, the coarsest one that is ready; else the request is as it was.
pub plan_highest_res_single-IsBest :
    (rets_of : Req → List Retention) (now from : ℕ) (req : Req)
    → (AllReady (rets_of req) from (λ j ret. ⊥)
        × (plan_highest_res_single rets_of now from req ≡ (req, false)))
      ⊎ ((pos : ℕ) × (ret : Retention) × IsBest (rets_of req) from (sub32 now from) pos ret
          × (plan_highest_res_single rets_of now from req ≡ (plan req pos ret, true)))
unfolding plan_highest_res_single
plan_highest_res_single-IsBest rets_of now from req =
    elim (highest_res-Chosen 0 from (sub32 now from) (rets_of req) req false) [
      | inl h ↦ inl h
      | inr (pos, ret, b, e) ↦ inr (pos, ret, b, e ∙ ap (λ k. (plan req k ret, true)) (omega arith))
    ]
