-- ===== src/Mdata/Buckets.antt =====
-- The statistics of a bucket (mdata/aggregation.go) as folds over its values.
use metrictank.Common.{ℕ, suc, ◌+◌, ◌≡◌, refl, ap, ◌∙◌, List, [], ◌∷◌, length, arith}
use metrictank.Mdata.Float.{FloatOps, count}
use metrictank.Mdata.Aggregation.{Aggregation, add, reset}

-- The last value, `d` if there is none.
abbrev pub last_or : ℕ → List ℕ → ℕ
last_or d [] = d
last_or d (v ∷ vs) = last_or v vs

abbrev pub fold_left : (ℕ → ℕ → ℕ) → ℕ → List ℕ → ℕ
fold_left f x [] = x
fold_left f x (v ∷ vs) = fold_left f (f x v) vs

module _ (fl : FloatOps) where
  -- One value after the other into an aggregation.
  abbrev pub add_values : Aggregation → List ℕ → Aggregation
  add_values a [] = a
  add_values a (v ∷ vs) = add_values (add fl a v) vs

  -- The statistics of a bucket that has had some values and `lst` before them.
  pub record Statistics (lst : ℕ) (b : Aggregation) (vs : List ℕ) : Type 0 where
    pub min_lem : b.min ≡ fold_left (λ m v. fl.f_min v m) fl.max_float vs
    pub max_lem : b.max ≡ fold_left (λ m v. fl.f_max v m) fl.neg_max_float vs
    pub sum_lem : b.sum ≡ fold_left fl.f_add fl.f_zero vs
    pub cnt_lem : b.cnt ≡ count fl (length vs)
    pub lst_lem : b.lst ≡ last_or lst vs

  -- The statistics after some values, from those before.
  record Folds (a b : Aggregation) (vs : List ℕ) : Type 0 where
    min_lem : b.min ≡ fold_left (λ m v. fl.f_min v m) a.min vs
    max_lem : b.max ≡ fold_left (λ m v. fl.f_max v m) a.max vs
    sum_lem : b.sum ≡ fold_left fl.f_add a.sum vs
    lst_lem : b.lst ≡ last_or a.lst vs

  add_values-Folds : (a : Aggregation) (vs : List ℕ) → Folds a (add_values a vs) vs
  unfolding add
  add_values-Folds a [] = record { min_lem = refl; max_lem = refl; sum_lem = refl; lst_lem = refl }
  add_values-Folds a (v ∷ vs) =
      let f = add_values-Folds (add fl a v) vs in
      record { min_lem = f.min_lem; max_lem = f.max_lem; sum_lem = f.sum_lem; lst_lem = f.lst_lem }

  add_values-count :
      (a : Aggregation) (n : ℕ) (vs : List ℕ)
      → a.cnt ≡ count fl n
      → (add_values a vs).cnt ≡ count fl (n + length vs)
  unfolding add
  add_values-count a n [] e = e ∙ ap (count fl) {x = n} {y = n + 0} (omega arith)
  add_values-count a n (v ∷ vs) e =
      add_values-count (add fl a v) (suc n) vs (ap (λ c. fl.f_add c fl.f_one) e)
      ∙ ap (count fl) {x = suc n + length vs} {y = n + suc (length vs)} (omega arith)

-- After `Reset`, whatever was there before, and one `Add` for each of some values: the minimum is that
-- of the values and the largest float, the maximum that of the values and its negative, the sum starts
-- at 0, and the count is 1 for each value, all taken in the order of the values; the last value is
-- that of the list, or the one before `Reset` if the list is empty.
pub add_values-reset :
    (fl : FloatOps) (a : Aggregation) (vs : List ℕ)
    → Statistics fl a.lst (add_values fl (reset fl a) vs) vs
unfolding reset
add_values-reset fl a vs =
    let f = add_values-Folds fl (reset fl a) vs in
    record {
      min_lem = f.min_lem;
      max_lem = f.max_lem;
      sum_lem = f.sum_lem;
      cnt_lem =
          add_values-count fl (reset fl a) 0 vs refl
          ∙ ap (count fl) {x = 0 + length vs} {y = length vs} (omega arith);
      lst_lem = f.lst_lem;
    }
