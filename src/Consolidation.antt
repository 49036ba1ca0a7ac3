-- ===== src/Consolidation.antt =====
-- consolidation/consolidate.go and the archives of consolidation/consolidation.go: points put
-- together in groups of `agg_num`. The function that aggregates the values of a group, which
-- `GetAggFunc` picks from the batch package, is an argument. `none` is a panic.
pub mod Groups
pub mod Nulls
pub mod Nudge
use metrictank.Common.{
  ℕ, zero, suc, ◌+◌, ◌-◌, ◌*◌, ◌/◌, ◌%◌, Bool, true, false, List, [], ◌∷◌, Option, none, some, ltb,
  ◌==◌, if◌then◌else◌, length, get_or, set, take, drop,
}
use metrictank.Common.Words.{add32, sub32, mul32}
use metrictank.Schema.{Point}
use metrictank.Schema.Archive.{Method}
use metrictank.Schema.Archive
use metrictank.Batch.{BatchOps}
use metrictank.Batch

-- `Consolidator`.
pub data Consolidator : Type 0 where
  no_consolidation avg sum lst max min cnt mult med diff std_dev range : Consolidator

-- `Archive`; the consolidators that have no archive panic.
unfoldable pub archive : Consolidator → Option Method
archive cnt = some Archive.cnt
archive lst = some Archive.lst
archive min = some Archive.min
archive max = some Archive.max
archive sum = some Archive.sum
archive c = none

-- `FromArchive`.
unfoldable pub from_archive : Method → Consolidator
from_archive Archive.cnt = cnt
from_archive Archive.lst = lst
from_archive Archive.min = min
from_archive Archive.max = max
from_archive Archive.sum = sum
from_archive Archive.avg = no_consolidation

-- `GetAggFunc`. `none` is nil.
unfoldable pub get_agg_func : BatchOps → Consolidator → Option (List Point → ℕ)
get_agg_func ops no_consolidation = none
get_agg_func ops avg = some (Batch.avg ops)
get_agg_func ops cnt = some (Batch.cnt ops)
get_agg_func ops lst = some (Batch.lst ops)
get_agg_func ops min = some (Batch.min ops)
get_agg_func ops max = some (Batch.max ops)
get_agg_func ops mult = some (Batch.mult ops)
get_agg_func ops med = some (Batch.med ops)
get_agg_func ops diff = some (Batch.diff ops)
get_agg_func ops std_dev = some (Batch.std_dev ops)
get_agg_func ops range = some (Batch.range ops)
get_agg_func ops sum = some (Batch.sum ops)

abbrev no_point : Point
no_point = record { val = 0; ts = 0 }

-- `in[i]`, for an index that is in range.
abbrev pub at : List Point → ℕ → Point
at points i = get_or points i no_point

-- `AggEvery`. A `max_points` of 0 panics.
unfoldable pub agg_every : ℕ → ℕ → Option ℕ
agg_every num_points max_points =
    if num_points == 0
    then some 1
    else if max_points == 0
    then none
    else some (sub32 (add32 num_points max_points) 1 / max_points)

module _ (agg_func : List Point → ℕ) where
  -- The loop of `Consolidate` over the complete groups. It writes to the array that it reads.
  unfoldable pub fill : ℕ → ℕ → ℕ → ℕ → List Point → List Point
  fill zero num in_i out_i points = points
  fill (suc groups) num in_i out_i points =
      let next_i = in_i + num in
      let group = take num (drop in_i points) in
      fill groups num next_i (out_i + 1)
        (set points out_i (record { val = agg_func group; ts = (at points (next_i - 1)).ts }))

  -- The timestamp of the last group, for a group that is not complete.
  unfoldable pub last_ts : ℕ → ℕ → List Point → ℕ
  last_ts agg_num clean_len points =
      if length points == 1
      then (at points 0).ts
      else let interval =
          sub32 (at points (length points - 1)).ts (at points (length points - 2)).ts in
        add32 (at points clean_len).ts (mul32 (sub32 agg_num 1) interval)

  -- `Consolidate`. An `agg_num` of 0 panics.
  unfoldable pub consolidate : List Point → ℕ → Option (List Point)
  unfolding fill last_ts
  consolidate points num =
      if num == 0
      then none
      else let out_len = length points / num in
        let clean_len = num * out_len in
        let filled = fill out_len num 0 0 points in
        some (
          if length points == clean_len
          then take out_len filled
          else take (out_len + 1) (
              set filled out_len (record {
                val = agg_func (drop clean_len filled);
                ts = last_ts num clean_len filled;
              })))

-- `Consolidate` with the function that `GetAggFunc` picks. If that is nil, it is only called where
-- there are points.
unfoldable pub consolidate_by : BatchOps → List Point → ℕ → Consolidator → Option (List Point)
unfolding get_agg_func consolidate
consolidate_by ops points num consolidator = elim (get_agg_func ops consolidator) [
  | none ↦ if num == 0 then none else if length points == 0 then some [] else none
  | some agg_func ↦ consolidate agg_func points num
]

-- `nudge`: how far the start moves, and how many points that strips. An interval of 0 panics, and
-- so does one whose product with `agg_num` wraps to 0.
unfoldable pub nudge : ℕ → ℕ → ℕ → Option (ℕ × ℕ)
nudge start pre_agg_interval agg_num =
    let post_agg_interval = mul32 pre_agg_interval agg_num in
    let remainder = sub32 start pre_agg_interval % post_agg_interval in
    let shift = sub32 post_agg_interval remainder in
    if post_agg_interval == 0
    then none
    else if remainder == 0
    then some (0, 0)
    else some (shift, shift / pre_agg_interval)

-- `nudgeMaybe`.
unfoldable pub nudge_maybe : List Point → ℕ → ℕ → Option (List Point)
unfolding nudge
nudge_maybe points agg_num interval =
    if ltb (mul32 2 agg_num) (length points)
    then elim (nudge (at points 0).ts interval agg_num) [
      | none ↦ none
      | some (shift, num) ↦ if ltb (length points) num then none else some (drop num points)
    ]
    else some points
