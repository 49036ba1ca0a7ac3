-- ===== src/Expr/Normalize.antt =====
-- expr/normalize.go: series consolidated to a common interval. `none` is a panic. `alignForward`
-- is the same here and in api/dataprocessor.go. The pool and the data map are left out.
pub mod Pads
use metrictank.Common.{
  ℕ, zero, suc, ◌+◌, ◌-◌, ◌*◌, ◌/◌, Bool, true, false, List, [], ◌∷◌, ◌++◌, Option, none, some, ltb,
  ◌==◌, if◌then◌else◌, length, take, map,
}
use metrictank.Common.Words.{add32, sub32}
use metrictank.Schema.{Point}
use metrictank.Consolidation.{Consolidator, consolidate_by, at}
use metrictank.Batch.{BatchOps}
use metrictank.Api.Fix.{align_forward}
use metrictank.Util.Lcm.{lcm}
use metrictank.Mdata.AggMetric.{◌>>=◌}

-- `Series`, less the fields that only name it.
pub record Series : Type 0 where
  pub datapoints : List Point
  pub interval : ℕ
  pub consolidator : Consolidator

-- The loop that puts nulls in front, of at most `n` rounds.
unfoldable pub pads_from : ℕ → ℕ → ℕ → ℕ → ℕ → Option (List Point)
pads_from zero nan ts first interval = none
pads_from (suc n) nan ts first interval =
    let rest = pads_from n nan (add32 ts interval) first interval in
    if ltb ts first then (rest >>= λ pads. some (record { val = nan; ts = ts } ∷ pads)) else some []

-- The first timestamp of the loop.
abbrev pub first_pad : ℕ → ℕ → ℕ → ℕ
first_pad first in_interval interval =
    add32 (sub32 (align_forward first interval) interval) in_interval

-- The nulls in front. A round takes `ts` an interval nearer to `first`, so one more than the
-- intervals up to `first` are enough where nothing wraps.
unfoldable pub pads : ℕ → ℕ → ℕ → ℕ → Option (List Point)
unfolding pads_from align_forward
pads nan first in_interval interval =
    pads_from (suc (suc (first / interval))) nan (first_pad first in_interval interval) first
      interval

-- `datapoints` less what is behind the last timestamp of a canonical series.
unfoldable pub trim : ℕ → ℕ → List Point → Option (List Point)
trim in_interval interval points =
    let last = (at points (length points - 1)).ts in
    let num_drop = (last - last / interval * interval) / in_interval in
    if ltb (length points) num_drop then none else some (take (length points - num_drop) points)

module _ (ops : BatchOps) where
  -- `NormalizeTo` behind the loop.
  unfoldable pub normalize_points : Series → ℕ → List Point → Option Series
  unfolding trim consolidate_by
  normalize_points s interval points = do
    kept ← trim s.interval interval points
    out ← consolidate_by ops kept (interval / s.interval) s.consolidator
    some (record s { datapoints = out; interval = interval })

  -- `NormalizeTo`, for intervals other than 0.
  unfoldable pub normalize_to : Series → ℕ → Option Series
  unfolding pads normalize_points
  normalize_to s interval = elim s.datapoints [
    | [] ↦ none
    | p ∷ ps ↦ pads ops.nan p.ts s.interval interval >>= λ front.
        normalize_points s interval (front ++ p ∷ ps)
  ]

  unfoldable pub normalize_all : ℕ → List Series → Option (List Series)
  unfolding normalize_to
  normalize_all interval [] = some []
  normalize_all interval (s ∷ ss) = do
    t ← (if s.interval == interval then some s else normalize_to s interval)
    ts ← normalize_all interval ss
    some (t ∷ ts)

  unfoldable pub any_zero : List Series → Bool
  any_zero [] = false
  any_zero (s ∷ ss) = let rest = any_zero ss in if s.interval == 0 then true else rest

  -- `Normalize`.
  unfoldable pub normalize : List Series → Option (List Series)
  unfolding any_zero lcm normalize_all
  normalize ss =
      if any_zero ss
      then none
      else (lcm (map (λ (s : Series). s.interval) ss) >>= λ interval. normalize_all interval ss)

  -- `NormalizeTwo`.
  unfoldable pub normalize_two : Series → Series → Option (Series × Series)
  unfolding lcm normalize_to
  normalize_two a b = if a.interval == b.interval then some (a, b) else do
    interval ← lcm (a.interval ∷ b.interval ∷ [])
    a' ← (if a.interval == interval then some a else normalize_to a interval)
    b' ← (if b.interval == interval then some b else normalize_to b interval)
    some (a', b')
