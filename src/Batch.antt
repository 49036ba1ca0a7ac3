-- ===== src/Batch.antt =====
-- batch/aggregator.go: functions that aggregate the values of a list of points. A float64 is the
-- number of its bits, and its arithmetic, which is the hardware's, an argument; so is
-- `sort.Float64s`. The variable that a loop changes is its argument.
use metrictank.Common.{
  ℕ, ◌-◌, ◌/◌, ◌%◌, Bool, true, false, List, [], ◌∷◌, ◌++◌, ◌==◌, if◌then◌else◌, length, get_or,
}
use metrictank.Schema.{Point}

pub record BatchOps : Type 0 where
  pub nan : ℕ
  pub inf : ℕ
  pub neg_inf : ℕ
  pub f_zero : ℕ
  pub f_one : ℕ
  pub f_two : ℕ
  pub is_nan : ℕ → Bool
  pub lt : ℕ → ℕ → Bool
  pub f_add : ℕ → ℕ → ℕ
  pub f_sub : ℕ → ℕ → ℕ
  pub f_mul : ℕ → ℕ → ℕ
  pub f_div : ℕ → ℕ → ℕ
  pub f_eq : ℕ → ℕ → Bool
  pub f_of_int : ℕ → ℕ
  pub sqrt : ℕ → ℕ
  pub sort : List ℕ → List ℕ

module _ (ops : BatchOps) where
  -- A loop over `in` whose body runs for the values that are not null.
  unfoldable pub for_valid {ℓ} : {A : Type ℓ} → (A → ℕ → A) → A → List Point → A
  for_valid body acc [] = acc
  for_valid body acc (p ∷ ps) = for_valid body (if ops.is_nan p.val then acc else body acc p.val) ps

  -- `valid` of `Avg` and `Cnt`, and `num` of `StdDev`.
  unfoldable pub num_valid : List Point → ℕ
  unfolding for_valid
  num_valid points = for_valid (λ valid v. ops.f_add valid ops.f_one) ops.f_zero points

  -- `valid` of `Min`, `Max`, `Range` and `Sum`.
  unfoldable pub any_valid : List Point → Bool
  unfolding for_valid
  any_valid points = for_valid (λ valid v. true) false points

  -- `sum` of `Avg` and `Sum`.
  unfoldable pub sum_loop : List Point → ℕ
  unfolding for_valid
  sum_loop points = for_valid (λ sum v. ops.f_add sum v) ops.f_zero points

  -- `min` of `Min` and `Range`.
  unfoldable pub min_loop : List Point → ℕ
  unfolding for_valid
  min_loop points = for_valid (λ least v. if ops.lt v least then v else least) ops.inf points

  -- `max` of `Max` and `Range`.
  unfoldable pub max_loop : List Point → ℕ
  unfolding for_valid
  max_loop points = for_valid (λ most v. if ops.lt most v then v else most) ops.neg_inf points

  -- `Avg`.
  unfoldable pub avg : List Point → ℕ
  unfolding num_valid sum_loop
  avg points =
      if ops.f_eq (num_valid points) ops.f_zero
      then ops.nan
      else ops.f_div (sum_loop points) (num_valid points)

  -- `Cnt`.
  unfoldable pub cnt : List Point → ℕ
  unfolding num_valid
  cnt points = if ops.f_eq (num_valid points) ops.f_zero then ops.nan else num_valid points

  -- `Lst`.
  unfoldable pub lst : List Point → ℕ
  unfolding for_valid
  lst points = for_valid (λ last v. v) ops.nan points

  -- `Min`.
  unfoldable pub min : List Point → ℕ
  unfolding any_valid min_loop
  min points = if any_valid points then min_loop points else ops.nan

  -- `Max`.
  unfoldable pub max : List Point → ℕ
  unfolding any_valid max_loop
  max points = if any_valid points then max_loop points else ops.nan

  -- The loop of `Mult`, which a null ends.
  unfoldable pub mult_loop : ℕ → List Point → ℕ
  mult_loop mult [] = mult
  mult_loop mult (p ∷ ps) =
      let rest = mult_loop (ops.f_mul mult p.val) ps in if ops.is_nan p.val then ops.nan else rest

  -- `Mult`.
  unfoldable pub mult : List Point → ℕ
  unfolding mult_loop
  mult [] = ops.nan
  mult (p ∷ ps) = mult_loop ops.f_one (p ∷ ps)

  -- `vals` of `Med`.
  unfoldable pub valid_vals : List Point → List ℕ
  unfolding for_valid
  valid_vals points = for_valid (λ vals v. vals ++ v ∷ []) [] points

  -- `Med`.
  unfoldable pub med : List Point → ℕ
  unfolding valid_vals
  med points =
      let vals = valid_vals points in
      let sorted = ops.sort vals in
      let mid = length vals / 2 in
      if length vals == 0
      then ops.nan
      else if length vals % 2 == 0
      then ops.f_div (ops.f_add (get_or sorted (mid - 1) 0) (get_or sorted mid 0)) ops.f_two
      else get_or sorted mid 0

  -- `Diff`.
  unfoldable pub diff : List Point → ℕ
  unfolding for_valid
  diff points = for_valid (λ acc v. if ops.is_nan acc then v else ops.f_sub acc v) ops.nan points

  -- `sumDeviationsSquared` of `StdDev`, around the mean.
  unfoldable pub sum_deviations : ℕ → List Point → ℕ
  unfolding for_valid
  sum_deviations mean points =
      for_valid (λ acc v. ops.f_add acc (ops.f_mul (ops.f_sub v mean) (ops.f_sub v mean)))
        ops.f_zero points

  -- `StdDev`.
  unfoldable pub std_dev : List Point → ℕ
  unfolding avg num_valid sum_deviations
  std_dev points =
      let mean = avg points in
      if ops.is_nan mean
      then mean
      else ops.sqrt (ops.f_div (sum_deviations mean points) (num_valid points))

  -- `Range`.
  unfoldable pub range : List Point → ℕ
  unfolding any_valid min_loop max_loop
  range points = if any_valid points then ops.f_sub (max_loop points) (min_loop points) else ops.nan

  -- `Sum`.
  unfoldable pub sum : List Point → ℕ
  unfolding any_valid sum_loop
  sum points = if any_valid points then sum_loop points else ops.nan
