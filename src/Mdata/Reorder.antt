-- ===== src/Mdata/Reorder.antt =====
-- mdata/reorder_buffer.go: a window in which points may arrive out of order.
-- A method that mutates the buffer returns the new one; `ts ≡ 0` marks an empty slot.
pub mod Window
pub mod Order
pub mod Takes
pub mod Insert
pub mod Empty
pub mod Correct
pub mod Refuse
pub mod Advance
pub mod Invariant
pub mod Conserve
use metrictank.Common.{
  ℕ, zero, suc, ◌+◌, ◌-◌, ◌*◌, ◌/◌, ◌%◌, Bool, List, [], ◌∷◌, ◌++◌, map, length, get_or, set,
  replicate, ltb, leb, ◌==◌, if◌then◌else◌, ◌&&◌, not,
}
use metrictank.Common.Words.{u32_mod, sub32, mul32}
use metrictank.Schema.{Point}
use metrictank.Mdata.Errors.{Result, ok, err, metric_too_old, metric_new_value_for_timestamp}
use metrictank.Mdata.Boundary.{agg_boundary}

pub record ReorderBuffer : Type 0 where
  pub newest : ℕ
  pub interval : ℕ
  pub buf : List Point
  pub allow_update : Bool

abbrev pub zero_point : Point
zero_point = record { val = 0; ts = 0 }

-- `rob.buf[i]`. The indices are reduced modulo the capacity, so none is out of range.
abbrev pub at : List Point → ℕ → Point
at buf i = get_or buf i zero_point

abbrev pub cap : ReorderBuffer → ℕ
cap rob = length rob.buf

-- `NewReorderBuffer`.
unfoldable pub new : ℕ → ℕ → Bool → ReorderBuffer
new reorder_window interval allow_update = record {
  newest = 0;
  interval = interval;
  buf = replicate reorder_window zero_point;
  allow_update = allow_update;
}

abbrev pub cleared : Point → Point
cleared p = record p { ts = 0 }

-- The loop of `Add` that purges `n` slots from slot `oldest` on.
unfoldable pub purge : ℕ → ℕ → List Point → List Point → List Point × List Point
purge zero oldest buf res = (res, buf)
purge (suc n) oldest buf res =
    let p = at buf oldest in
    purge n ((oldest + 1) % length buf) (if p.ts == 0 then buf else set buf oldest (cleared p))
      (if p.ts == 0 then res else res ++ p ∷ [])

unfoldable pub index_of : ReorderBuffer → ℕ → ℕ
index_of rob ts = (ts / rob.interval) % cap rob

-- How many slots `Add` purges for a point newer than the newest.
unfoldable pub flush_count : ReorderBuffer → ℕ → ℕ
flush_count rob ts =
    let n = sub32 ts (at rob.buf rob.newest).ts / rob.interval in
    if ltb (cap rob) n then cap rob else n

-- The branch of `Add` for a point newer than the newest.
unfoldable pub advance : ReorderBuffer → ℕ → ℕ → List Point × ReorderBuffer
unfolding flush_count index_of purge
advance rob ts val =
    let index = index_of rob ts in
    let (res, buf) = purge (flush_count rob ts) ((rob.newest + 1) % cap rob) rob.buf [] in
    (res, record rob { newest = index; buf = set buf index (record { val = val; ts = ts }) })

unfoldable pub is_too_old : ReorderBuffer → ℕ → Bool
is_too_old rob ts =
    let newest = (at rob.buf rob.newest).ts in
    not (newest == 0) && leb ts (sub32 newest (mul32 (cap rob) rob.interval))

-- `Add` of a timestamp that is on a boundary.
unfoldable pub add_at : ReorderBuffer → ℕ → ℕ → Result (List Point × ReorderBuffer)
unfolding is_too_old index_of advance
add_at rob ts val =
    let index = index_of rob ts in
    let here = record rob { buf = set rob.buf index (record { val = val; ts = ts }) } in
    if is_too_old rob ts
    then err metric_too_old
    else if ts == (at rob.buf index).ts
    then (if rob.allow_update then ok ([], here) else err metric_new_value_for_timestamp)
    else if ltb (at rob.buf rob.newest).ts ts
    then ok (advance rob ts val)
    else ok ([], here)

-- `Add`: the points that left the window and the new buffer. An error leaves the buffer as it is.
unfoldable pub add : ReorderBuffer → ℕ → ℕ → Result (List Point × ReorderBuffer)
unfolding add_at agg_boundary
add rob ts val = add_at rob (agg_boundary ts rob.interval) val

-- The loop of `Get`, from slot `oldest` up to slot `newest`.
unfoldable pub get_loop : ℕ → List Point → ℕ → ℕ → List Point → List Point
get_loop zero buf newest oldest res = res
get_loop (suc fuel) buf newest oldest res =
    let p = at buf oldest in
    let res' = if p.ts == 0 then res else res ++ p ∷ [] in
    let rest = get_loop fuel buf newest ((oldest + 1) % length buf) res' in
    if oldest == newest then res' else rest

-- `Get`. The loop ends within one round, so the capacity is enough fuel.
unfoldable pub get : ReorderBuffer → List Point
unfolding get_loop
get rob = get_loop (cap rob) rob.buf rob.newest ((rob.newest + 1) % cap rob) []

-- `Reset`.
unfoldable pub reset : ReorderBuffer → ReorderBuffer
reset rob = record rob { newest = 0; buf = map cleared rob.buf }

-- `Flush`.
unfoldable pub flush : ReorderBuffer → List Point × ReorderBuffer
unfolding get reset
flush rob = (get rob, reset rob)

-- `IsEmpty`.
unfoldable pub is_empty : ReorderBuffer → Bool
is_empty rob = (at rob.buf rob.newest).ts == 0
