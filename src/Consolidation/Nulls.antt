-- ===== src/Consolidation/Nulls.antt =====
-- Null points and the functions of batch/aggregator.go.
use metrictank.Common.{
  ℕ, ◌≡◌, refl, sym, ap, ap₂, subst, ◌∙◌, List, [], ◌∷◌, some, if◌then◌else◌, inl, inr, true, false,
  Bool-cases, ◌≢◌,
}
use mathlib.Core.Option.{some-injective, none-ne-some}
use metrictank.Schema.{Point}
use metrictank.Consolidation.{Consolidator, no_consolidation, mult, get_agg_func}
use metrictank.Consolidation
use metrictank.Batch.{
  BatchOps, for_valid, num_valid, any_valid, sum_loop, min_loop, max_loop, avg, cnt, lst, min, max,
  valid_vals, med, diff, sum_deviations, std_dev, range, sum,
}

module _ (ops : BatchOps) where
  -- The points that are not null.
  abbrev pub valid_points : List Point → List Point
  valid_points [] = []
  valid_points (p ∷ ps) = if ops.is_nan p.val then valid_points ps else p ∷ valid_points ps

  for_valid-value {ℓ} :
      {A : Type ℓ} (body : A → ℕ → A) (acc : A) (p : Point) (ps : List Point)
      → ops.is_nan p.val ≡ false
      → for_valid ops body acc (p ∷ ps) ≡ for_valid ops body (body acc p.val) ps
  unfolding for_valid
  for_valid-value body acc p ps e = rw e refl

  skip {ℓ} :
      {A : Type ℓ} (body : A → ℕ → A) (acc : A) (p : Point) (ps : List Point)
      → ops.is_nan p.val ≡ true
      → for_valid ops body acc ps ≡ for_valid ops body acc (valid_points ps)
      → for_valid ops body acc (p ∷ ps) ≡ for_valid ops body acc (valid_points (p ∷ ps))
  unfolding for_valid
  skip body acc p ps e h = rw e h

  for_valid-valid_points {ℓ} :
      {A : Type ℓ} (body : A → ℕ → A) (acc : A) (points : List Point)
      → for_valid ops body acc points ≡ for_valid ops body acc (valid_points points)
  for_valid-valid_points body acc [] = refl
  for_valid-valid_points body acc (p ∷ ps) = elim (Bool-cases (ops.is_nan p.val)) [
    | inl e ↦ skip body acc p ps e (for_valid-valid_points body acc ps)
    | inr e ↦
        for_valid-value body acc p ps e
        ∙ for_valid-valid_points body (body acc p.val) ps
        ∙ sym (for_valid-value body acc p (valid_points ps) e)
        ∙ ap (λ b. for_valid ops body acc (if b then valid_points ps else p ∷ valid_points ps))
            (sym e)
  ]

  -- A function that says the same of the points that are not null, and null if there are none.
  abbrev pub SkipsNulls : (List Point → ℕ) → List Point → Type 0
  SkipsNulls f points = (f points ≡ f (valid_points points)) × (f [] ≡ ops.nan)

  num : (points : List Point) → num_valid ops points ≡ num_valid ops (valid_points points)
  unfolding num_valid
  num points = for_valid-valid_points _ ops.f_zero points

  any : (points : List Point) → any_valid ops points ≡ any_valid ops (valid_points points)
  unfolding any_valid
  any points = for_valid-valid_points _ false points

  total : (points : List Point) → sum_loop ops points ≡ sum_loop ops (valid_points points)
  unfolding sum_loop
  total points = for_valid-valid_points _ ops.f_zero points

  least : (points : List Point) → min_loop ops points ≡ min_loop ops (valid_points points)
  unfolding min_loop
  least points = for_valid-valid_points _ ops.inf points

  most : (points : List Point) → max_loop ops points ≡ max_loop ops (valid_points points)
  unfolding max_loop
  most points = for_valid-valid_points _ ops.neg_inf points

  vals : (points : List Point) → valid_vals ops points ≡ valid_vals ops (valid_points points)
  unfolding valid_vals
  vals points = for_valid-valid_points _ [] points

  deviations :
      (mean : ℕ) (points : List Point)
      → sum_deviations ops mean points ≡ sum_deviations ops mean (valid_points points)
  unfolding sum_deviations
  deviations mean points = for_valid-valid_points _ ops.f_zero points

  lst-SkipsNulls : (points : List Point) → SkipsNulls (lst ops) points
  unfolding lst for_valid
  lst-SkipsNulls points = (for_valid-valid_points _ ops.nan points, refl)

  diff-SkipsNulls : (points : List Point) → SkipsNulls (diff ops) points
  unfolding diff for_valid
  diff-SkipsNulls points = (for_valid-valid_points _ ops.nan points, refl)

  min-SkipsNulls : (points : List Point) → SkipsNulls (min ops) points
  unfolding min any_valid for_valid
  min-SkipsNulls points = (ap₂ (λ a m. if a then m else ops.nan) (any points) (least points), refl)

  max-SkipsNulls : (points : List Point) → SkipsNulls (max ops) points
  unfolding max any_valid for_valid
  max-SkipsNulls points = (ap₂ (λ a m. if a then m else ops.nan) (any points) (most points), refl)

  sum-SkipsNulls : (points : List Point) → SkipsNulls (sum ops) points
  unfolding sum any_valid for_valid
  sum-SkipsNulls points = (ap₂ (λ a m. if a then m else ops.nan) (any points) (total points), refl)

  range-SkipsNulls : (points : List Point) → SkipsNulls (range ops) points
  unfolding range any_valid for_valid
  range-SkipsNulls points = (rw (any points, most points, least points) refl, refl)

  med-valid_points : (points : List Point) → med ops points ≡ med ops (valid_points points)
  unfolding med
  med-valid_points points = rw (vals points) refl

  med-SkipsNulls : (points : List Point) → SkipsNulls (med ops) points
  unfolding med valid_vals for_valid
  med-SkipsNulls points = (med-valid_points points, refl)

  picked :
      {f g : List Point → ℕ} (points : List Point)
      → some f ≡ some g
      → SkipsNulls f points
      → SkipsNulls g points
  picked points e h = subst (λ f. SkipsNulls f points) (some-injective _ _ e) h

  module _ (same : ops.f_eq ops.f_zero ops.f_zero ≡ true) where
    cnt-SkipsNulls : (points : List Point) → SkipsNulls (cnt ops) points
    unfolding cnt num_valid for_valid
    cnt-SkipsNulls points =
        (ap (λ n. if ops.f_eq n ops.f_zero then ops.nan else n) (num points), rw same refl)

    avg-SkipsNulls : (points : List Point) → SkipsNulls (avg ops) points
    unfolding avg num_valid for_valid
    avg-SkipsNulls points = (
      ap₂ (λ n s. if ops.f_eq n ops.f_zero then ops.nan else ops.f_div s n) (num points)
          (total points),
      rw same refl,
    )

    std_dev-SkipsNulls :
        ops.is_nan ops.nan ≡ true → (points : List Point) → SkipsNulls (std_dev ops) points
    unfolding std_dev
    std_dev-SkipsNulls null points =
        let a = avg-SkipsNulls points in
        (
          rw (a.0, num points, deviations (avg ops (valid_points points)) points) refl,
          rw (a.1, null) refl,
        )

    -- The function that `GetAggFunc` picks, unless it is that of `mult`, says of any points what it
    -- says of those that are not null, and null if there are none; `nan` is null and 0 equals 0.
    pub get_agg_func-SkipsNulls :
        ops.is_nan ops.nan ≡ true
        → (c : Consolidator) (f : List Point → ℕ) → c ≢ mult
        → get_agg_func ops c ≡ some f
        → (points : List Point) → SkipsNulls f points
    unfolding get_agg_func
    get_agg_func-SkipsNulls null no_consolidation f ne e points = absurd (none-ne-some f e)
    get_agg_func-SkipsNulls null Consolidation.avg f ne e points =
        picked points e (avg-SkipsNulls points)
    get_agg_func-SkipsNulls null Consolidation.cnt f ne e points =
        picked points e (cnt-SkipsNulls points)
    get_agg_func-SkipsNulls null Consolidation.lst f ne e points =
        picked points e (lst-SkipsNulls points)
    get_agg_func-SkipsNulls null Consolidation.min f ne e points =
        picked points e (min-SkipsNulls points)
    get_agg_func-SkipsNulls null Consolidation.max f ne e points =
        picked points e (max-SkipsNulls points)
    get_agg_func-SkipsNulls null mult f ne e points = absurd (ne refl)
    get_agg_func-SkipsNulls null Consolidation.med f ne e points =
        picked points e (med-SkipsNulls points)
    get_agg_func-SkipsNulls null Consolidation.diff f ne e points =
        picked points e (diff-SkipsNulls points)
    get_agg_func-SkipsNulls null Consolidation.std_dev f ne e points =
        picked points e (std_dev-SkipsNulls null points)
    get_agg_func-SkipsNulls null Consolidation.range f ne e points =
        picked points e (range-SkipsNulls points)
    get_agg_func-SkipsNulls null Consolidation.sum f ne e points =
        picked points e (sum-SkipsNulls points)
