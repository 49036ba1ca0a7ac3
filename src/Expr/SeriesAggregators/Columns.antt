-- ===== src/Expr/SeriesAggregators/Columns.antt =====
-- The loops of expr/seriesaggregators.go that go series by series, as loops over columns.
use metrictank.Common.{ℕ, suc, ◌≡◌, refl, sym, ap, ◌∙◌, List, [], ◌∷◌, some, length, All, arith}
use metrictank.Common.{Bool, true, false, ◌||◌, if◌then◌else◌, ap₂}
use metrictank.Schema.{Point}
use metrictank.Batch.{BatchOps}
use metrictank.Mdata.AggMetric.{◌>>=◌}
use metrictank.Expr.SeriesAggregators.{
  combine_with, combine_all, combine_series, min_step, max_step, sum_step, diff_step,
  cross_series_min, cross_series_max, cross_series_sum, cross_series_multiply, cross_series_diff,
}

-- The values at the front of each series, and the series behind them.
abbrev pub fronts : List (List Point) → List ℕ
fronts [] = []
fronts ([] ∷ ss) = fronts ss
fronts ((p ∷ s) ∷ ss) = p.val ∷ fronts ss

abbrev pub behind : List (List Point) → List (List Point)
behind [] = []
behind ([] ∷ ss) = [] ∷ behind ss
behind ((p ∷ s) ∷ ss) = s ∷ behind ss

abbrev pub fold_from : (ℕ → ℕ → ℕ) → ℕ → List ℕ → ℕ
fold_from step acc [] = acc
fold_from step acc (v ∷ vs) = fold_from step (step acc v) vs

-- Each point of the first series, with a value made of its own and those of the others in its place.
abbrev pub by_columns : (ℕ → List ℕ → ℕ) → List Point → List (List Point) → List Point
by_columns f [] ss = []
by_columns f (p ∷ ps) ss = record p { val = f p.val (fronts ss) } ∷ by_columns f ps (behind ss)

by_columns-ext :
    (f g : ℕ → List ℕ → ℕ)
    → ((v : ℕ) (vs : List ℕ) → f v vs ≡ g v vs)
    → (s : List Point) (ss : List (List Point)) → by_columns f s ss ≡ by_columns g s ss
by_columns-ext f g e [] ss = refl
by_columns-ext f g e (p ∷ ps) ss =
    ap₂ (λ v rest. (let q : Point = record p { val = v } in q) ∷ rest) (e p.val (fronts ss))
      (by_columns-ext f g e ps (behind ss))

abbrev pub SameLength : List Point → List (List Point) → Type 0
SameLength s ss = All (λ (t : List Point). length t ≡ length s) ss

module _ (step : ℕ → ℕ → ℕ) where
  by_columns-nil : (out : List Point) → by_columns (fold_from step) out [] ≡ out
  by_columns-nil [] = refl
  by_columns-nil (p ∷ ps) = ap (λ rest. p ∷ rest) (by_columns-nil ps)

  -- A series as long as `out` combines with it.
  combine_one :
      (out s : List Point)
      → length s ≡ length out
      → (out' : List Point) × (combine_with step out s ≡ some out')
        × (length out' ≡ length out)
        × ((ss : List (List Point))
            → by_columns (fold_from step) out' ss ≡ by_columns (fold_from step) out (s ∷ ss))
  unfolding combine_with
  combine_one [] [] e = ([], refl, refl, λ ss. refl)
  combine_one [] (p ∷ ps) e = absurd (omega (arith, e))
  combine_one (o ∷ out) [] e = absurd (omega (arith, e))
  combine_one (o ∷ out) (p ∷ ps) e =
      let same : length ps ≡ length out = omega (arith, e) in
      let (out', made, len, h) = combine_one out ps same in
      let q : Point = record o { val = step o.val p.val } in
      (
        q ∷ out',
        ap (λ r. r >>= λ rest. some (q ∷ rest)) made,
        ap suc len,
        λ ss.
            ap
              (λ rest.
                (let r : Point = record q { val = fold_from step q.val (fronts ss) } in r) ∷ rest)
              (h (behind ss)),
      )

  All-length :
      (out out' : List Point) (ss : List (List Point))
      → length out' ≡ length out
      → SameLength out ss
      → SameLength out' ss
  All-length out out' [] e h = h
  All-length out out' (s ∷ ss) e h = (h.0 ∙ sym e, All-length out out' ss e h.1)

  combine_all-by_columns :
      (out : List Point) (ss : List (List Point))
      → SameLength out ss
      → combine_all step out ss ≡ some (by_columns (fold_from step) out ss)
  unfolding combine_all
  combine_all-by_columns out [] h = ap some (sym (by_columns-nil out))
  combine_all-by_columns out (s ∷ ss) h =
      let (out', made, len, same) = combine_one out s h.0 in
      ap (λ r. r >>= λ o. combine_all step o ss) made
      ∙ combine_all-by_columns out' ss (All-length out out' ss len h.1)
      ∙ ap some (same ss)

  combine_series-by_columns :
      (s : List Point) (ss : List (List Point))
      → SameLength s ss
      → combine_series step (s ∷ ss) ≡ some (by_columns (fold_from step) s ss)
  unfolding combine_series
  combine_series-by_columns s ss h = combine_all-by_columns s ss h

module _ (ops : BatchOps) where
  -- The values that are not null.
  abbrev keep : Bool → ℕ → List ℕ → List ℕ
  keep true v vs = vs
  keep false v vs = v ∷ vs

  abbrev pub non_null : List ℕ → List ℕ
  non_null [] = []
  non_null (v ∷ vs) = keep (ops.is_nan v) v (non_null vs)

  -- The first of some values, with the others folded into it; `old` if there are none.
  abbrev pub fold_first : (ℕ → ℕ → ℕ) → ℕ → List ℕ → ℕ
  fold_first f old [] = old
  fold_first f old (v ∷ vs) = fold_from f v vs

  abbrev pub lesser : ℕ → ℕ → ℕ
  lesser a b = if ops.lt b a then b else a

  abbrev pub greater : ℕ → ℕ → ℕ
  greater a b = if ops.lt a b then b else a

  -- The least and the greatest of the values that are not null, or the first value if all are.
  abbrev pub least_of : ℕ → List ℕ → ℕ
  least_of old vals = fold_first lesser old (non_null (old ∷ vals))

  abbrev pub greatest_of : ℕ → List ℕ → ℕ
  greatest_of old vals = fold_first greater old (non_null (old ∷ vals))

  -- A total that is null, be it from the start, is replaced by the next value.
  abbrev pub restarting : (ℕ → ℕ → ℕ) → ℕ → ℕ → ℕ
  restarting f acc v = if ops.is_nan acc then v else f acc v

  abbrev pub total_of : (ℕ → ℕ → ℕ) → ℕ → List ℕ → ℕ
  total_of f old vals = fold_from (restarting f) old (non_null vals)

  -- A step that keeps its first argument for a null can leave the nulls out.
  fold_from-non_null :
      (step g : ℕ → ℕ → ℕ)
      → ((v p : ℕ) → step v p ≡ (if ops.is_nan p then v else g v p))
      → (v : ℕ) (ps : List ℕ) → fold_from step v ps ≡ fold_from g v (non_null ps)
  fold_from-non_null step g e v [] = refl
  fold_from-non_null step g e v (p ∷ ps) =
      ap (λ x. fold_from step x ps) (e v p)
      ∙ by_null (λ x. fold_from-non_null step g e x ps) (ops.is_nan p)
    where
      by_null :
          ((x : ℕ) → fold_from step x ps ≡ fold_from g x (non_null ps))
          → (b : Bool)
          → fold_from step (if b then v else g v p) ps ≡ fold_from g v (keep b p (non_null ps))
      by_null rest true = rest v
      by_null rest false = rest (g v p)

  AllValid : List ℕ → Type 0
  AllValid = All (λ v. ops.is_nan v ≡ false)

  non_null-AllValid : (vs : List ℕ) → AllValid (non_null vs)
  unfolding AllValid
  non_null-AllValid [] = tt
  non_null-AllValid (v ∷ vs) = by_null (non_null-AllValid vs) (ops.is_nan v) refl
    where
      by_null :
          AllValid (non_null vs) → (b : Bool) → ops.is_nan v ≡ b → AllValid (keep b v (non_null vs))
      by_null rest true e = rest
      by_null rest false e = (e, rest)

  module _ (better : ℕ → ℕ → Bool) where
    choose : ℕ → ℕ → ℕ
    choose v p = if better v p then p else v

    or_choose : ℕ → ℕ → ℕ
    or_choose v p = if ops.is_nan v || better v p then p else v

    choose_valid :
        (b : Bool) (v p : ℕ)
        → ops.is_nan v ≡ false
        → ops.is_nan p ≡ false
        → ops.is_nan (if b then p else v) ≡ false
    choose_valid true v p e f = f
    choose_valid false v p e f = e

    settled :
        (v : ℕ) (ps : List ℕ)
        → ops.is_nan v ≡ false
        → AllValid ps
        → fold_from or_choose v ps ≡ fold_from choose v ps
    unfolding AllValid choose or_choose
    settled v [] e h = refl
    settled v (p ∷ ps) e h =
        ap (λ b. fold_from or_choose (if b || better v p then p else v) ps) e
        ∙ settled (choose v p) ps (choose_valid (better v p) v p e h.0) h.1

    best :
        (old : ℕ) (vals : List ℕ)
        → fold_from or_choose old (non_null vals) ≡ fold_first choose old (non_null (old ∷ vals))
    unfolding or_choose AllValid
    best old vals = by_null (ops.is_nan old) refl (non_null vals) (non_null-AllValid vals)
      where
        by_null :
            (b : Bool)
            → ops.is_nan old ≡ b
            → (vs : List ℕ) → AllValid vs
            → fold_from or_choose old vs ≡ fold_first choose old (keep b old vs)
        by_null false e vs h = settled old vs e h
        by_null true e [] h = refl
        by_null true e (v ∷ vs) h =
            ap (λ b. fold_from or_choose (if b || better old v then v else old) vs) e
            ∙ settled v vs h.0 h.1

  min-least_of : (v : ℕ) (vs : List ℕ) → fold_from (min_step ops) v vs ≡ least_of v vs
  unfolding min_step choose or_choose
  min-least_of v vs =
      fold_from-non_null (min_step ops) (or_choose (λ a b. ops.lt b a)) (λ a b. refl) v vs
      ∙ best (λ a b. ops.lt b a) v vs

  max-greatest_of : (v : ℕ) (vs : List ℕ) → fold_from (max_step ops) v vs ≡ greatest_of v vs
  unfolding max_step choose or_choose
  max-greatest_of v vs =
      fold_from-non_null (max_step ops) (or_choose (λ a b. ops.lt a b)) (λ a b. refl) v vs
      ∙ best (λ a b. ops.lt a b) v vs

  sum-total_of : (v : ℕ) (vs : List ℕ) → fold_from (sum_step ops) v vs ≡ total_of ops.f_add v vs
  unfolding sum_step
  sum-total_of v vs = fold_from-non_null (sum_step ops) (restarting ops.f_add) (λ a b. refl) v vs

  diff-total_of : (v : ℕ) (vs : List ℕ) → fold_from (diff_step ops) v vs ≡ total_of ops.f_sub v vs
  unfolding diff_step
  diff-total_of v vs = fold_from-non_null (diff_step ops) (restarting ops.f_sub) (λ a b. refl) v vs

-- For series of the same length, the functions that go through them series by series, and write to
-- the points of the result again and again, return the points of the first series, each with a value
-- made of those in its place. The minimum and the maximum are the least and the greatest of the values
-- that are not null, in the order of `<`, and null if all are. The sum and the difference go over
-- the values that are not null in order, and start again from the next value where they have become
-- null. The product is of all the values.
pub cross_series-by_columns :
    (ops : BatchOps) (s : List Point) (ss : List (List Point))
    → SameLength s ss
    → (cross_series_min ops (s ∷ ss) ≡ some (by_columns (least_of ops) s ss))
      × (cross_series_max ops (s ∷ ss) ≡ some (by_columns (greatest_of ops) s ss))
      × (cross_series_sum ops (s ∷ ss) ≡ some (by_columns (total_of ops ops.f_add) s ss))
      × (cross_series_multiply ops (s ∷ ss) ≡ some (by_columns (fold_from ops.f_mul) s ss))
      × (cross_series_diff ops (s ∷ ss) ≡ some (by_columns (total_of ops ops.f_sub) s ss))
unfolding cross_series_min cross_series_max cross_series_sum cross_series_multiply cross_series_diff
cross_series-by_columns ops s ss h = (
  combine_series-by_columns (min_step ops) s ss h
      ∙ ap some (by_columns-ext (fold_from (min_step ops)) (least_of ops) (min-least_of ops) s ss),
  combine_series-by_columns (max_step ops) s ss h
      ∙ ap some
          (by_columns-ext (fold_from (max_step ops)) (greatest_of ops) (max-greatest_of ops) s ss),
  combine_series-by_columns (sum_step ops) s ss h
      ∙ ap some (
          by_columns-ext (fold_from (sum_step ops)) (total_of ops ops.f_add) (sum-total_of ops) s
            ss),
  combine_series-by_columns ops.f_mul s ss h,
  combine_series-by_columns (diff_step ops) s ss h
      ∙ ap some (
          by_columns-ext (fold_from (diff_step ops)) (total_of ops ops.f_sub) (diff-total_of ops) s
            ss),
)
