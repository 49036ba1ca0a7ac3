-- ===== src/Api/Fix.antt =====
-- `alignForward`, `alignBackward`, `Fix` and `divide` of api/dataprocessor.go. The writes to `out`
-- go to the places 0, 1, 2, ... in turn, so the loop yields what it writes as a list; the place of
-- the last is `neededCap - 1`, as `Api.Fix.Grid` shows. The pool of slices is left out.
pub mod Align
pub mod Slots
pub mod Grid
use metrictank.Common.{
  ℕ, zero, suc, ◌+◌, ◌/◌, ◌%◌, List, [], ◌∷◌, Option, none, some, ltb, leb, ◌==◌, if◌then◌else◌,
  length,
}
use metrictank.Common.Words.{add32, sub32}
use metrictank.Schema.{Point}

-- `alignForward`, for an interval other than 0.
unfoldable pub align_forward : ℕ → ℕ → ℕ
align_forward ts interval =
    if ts % interval == 0 then ts else sub32 (add32 ts interval) (ts % interval)

-- `alignBackward`, for an interval other than 0.
unfoldable pub align_backward : ℕ → ℕ → ℕ
align_backward ts interval = sub32 ts (add32 (sub32 ts 1 % interval) 1)

-- The inner loop of `Fix` and the test behind it: the points that are left of `p` and those behind
-- it once the points at or before `limit` are passed over.
unfoldable pub skip_old : ℕ → List Point → List Point
skip_old limit [] = []
skip_old limit (p ∷ ps) = let rest = skip_old limit ps in if leb p.ts limit then rest else p ∷ ps

-- A round of the outer loop of `Fix`: a slot of the output, or the same `t` again, with the input
-- that is left.
pub data Slot : Type 0 where
  filled : Point → List Point → Slot
  again : List Point → Slot

unfoldable pub fix_slot : ℕ → ℕ → ℕ → List Point → Slot
unfolding skip_old
fix_slot nan t interval [] = filled (record { val = nan; ts = t }) []
fix_slot nan t interval (p ∷ ps) =
    if p.ts == t
    then filled p ps
    else if ltb t p.ts
    then filled (record { val = nan; ts = t }) (p ∷ ps)
    else if ltb (sub32 t interval) p.ts
    then filled (record { val = p.val; ts = t }) ps
    else again (skip_old (sub32 t interval) (p ∷ ps))

-- The outer loop of `Fix`, of at most `n` rounds.
unfoldable pub fix_loop : ℕ → ℕ → ℕ → ℕ → ℕ → List Point → Option (List Point)
unfolding fix_slot
fix_loop zero nan t last interval points = none
fix_loop (suc n) nan t last interval points =
    if ltb last t then some [] else elim (fix_slot nan t interval points) [
      | filled p left ↦ elim (fix_loop n nan (add32 t interval) last interval left) [
        | none ↦ none
        | some out ↦ some (p ∷ out)
      ]
      | again left ↦ fix_loop n nan t last interval left
    ]

-- `Fix`, with the bits of `math.NaN()`. A round makes a slot or leaves a point of the input, so
-- `neededCap` and the points of the input are enough rounds, with one for the end. An interval of 0 panics.
unfoldable pub fix : ℕ → List Point → ℕ → ℕ → ℕ → Option (List Point)
unfolding align_forward align_backward fix_loop
fix nan points from to interval =
    let first = align_forward from interval in
    let last = align_backward to interval in
    if interval == 0
    then none
    else if ltb last first
    then some []
    else fix_loop (sub32 last first / interval + 1 + length points + 1) nan first last interval
        points

-- `divide`, with the division of floats; `none` is the panic on different lengths.
unfoldable pub divide : (ℕ → ℕ → ℕ) → List Point → List Point → Option (List Point)
divide f_div [] [] = some []
divide f_div (p ∷ ps) (q ∷ qs) = elim (divide f_div ps qs) [
  | none ↦ none
  | some out ↦ some (record p { val = f_div p.val q.val } ∷ out)
]
divide f_div ps qs = none
