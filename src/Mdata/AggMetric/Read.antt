-- ===== src/Mdata/AggMetric/Read.antt =====
-- `Get` of mdata/aggmetric.go.
use metrictank.Common.{
  ℕ, zero, suc, ◌-◌, ◌^◌, List, [], ◌∷◌, Option, none, some, leb, ◌==◌, if◌then◌else◌, get_elem?,
  length,
}
use metrictank.Common.Words.{add32}
use metrictank.Schema.{Point}
use metrictank.Chunk.{Chunk}
use metrictank.Tsz.IterLong.{IterLong, series_iter}
use metrictank.Mdata.Reorder.{ReorderBuffer}
use metrictank.Mdata.Reorder
use metrictank.Mdata.AggMetric.{AggMetric, ◌>>=◌, pos_before, pos_behind}

-- `Result` of mdata/result.go.
pub record GetResult : Type 0 where
  pub points : List Point
  pub iters : List IterLong
  pub oldest : ℕ

pub data Reply : Type 0 where
  ok : GetResult → Reply
  invalid_range : Reply

-- The three loops of `Get` go round the ring once at most; `none` is a position out of range, or
-- no end within the fuel.

-- The oldest chunk that `from` falls into, from position `pos` on.
unfoldable pub seek_from : ℕ → List Chunk → ℕ → ℕ → ℕ → Option ℕ
unfolding pos_behind
seek_from zero chunks span from pos = none
seek_from (suc fuel) chunks span from pos =
    let rest = seek_from fuel chunks span from (pos_behind pos (length chunks)) in
    get_elem? chunks pos >>= λ c. if leb (add32 c.series.t0 span) from then rest else some pos

-- The newest chunk that `to` falls into, back from position `pos`.
unfoldable pub seek_to : ℕ → List Chunk → ℕ → ℕ → Option ℕ
unfolding pos_before
seek_to zero chunks to pos = none
seek_to (suc fuel) chunks to pos =
    let rest = seek_to fuel chunks to (pos_before pos (length chunks)) in
    get_elem? chunks pos >>= λ c. if leb to c.series.t0 then rest else some pos

-- The iterators of the chunks from one position up to another.
unfoldable pub collect : ℕ → List Chunk → ℕ → ℕ → Option (List IterLong)
unfolding pos_behind series_iter
collect zero chunks pos last = none
collect (suc fuel) chunks pos last =
    let rest = collect fuel chunks (pos_behind pos (length chunks)) last in
    get_elem? chunks pos >>= λ c.
    if pos == last
    then some (series_iter c.series ∷ [])
    else (rest >>= λ is. some (series_iter c.series ∷ is))

module _ {Agg : Type 0} where
  abbrev oldest_of : AggMetric Agg → Chunk → ℕ
  oldest_of a c = if c.first then a.first_ts else c.series.t0

  -- The part of `Get` behind the reorder buffer, which gave `points` and `oldest`.
  unfoldable pub get_chunks : AggMetric Agg → ℕ → ℕ → List Point → ℕ → Option Reply
  unfolding seek_from seek_to collect
  get_chunks a from to points oldest =
      if length a.chunks == 0
      then some (ok (record { points = points; iters = []; oldest = oldest }))
      else do
        newest_chunk ← get_elem? a.chunks a.current_chunk_pos
        if leb (add32 newest_chunk.series.t0 a.chunk_span) from
            then some (ok (record { points = points; iters = []; oldest = from }))
            else do
              let oldest_pos = pos_behind a.current_chunk_pos (length a.chunks)
              oldest_chunk ← get_elem? a.chunks oldest_pos
              if leb to oldest_chunk.series.t0
                  then some (
                      ok
                        (record { points = points; iters = []; oldest = oldest_of a oldest_chunk }))
                  else do
                    first_pos ← seek_from (length a.chunks) a.chunks a.chunk_span from oldest_pos
                    first_chunk ← get_elem? a.chunks first_pos
                    last_pos ← seek_to (length a.chunks) a.chunks to a.current_chunk_pos
                    iters ← collect (length a.chunks) a.chunks first_pos last_pos
                    some (
                        ok (record {
                          points = points;
                          iters = iters;
                          oldest = oldest_of a first_chunk;
                        }))

  -- `Get`.
  unfoldable pub get : AggMetric Agg → ℕ → ℕ → Option Reply
  unfolding get_chunks
  get a from to = if leb to from then some invalid_range else elim a.rob [
    | none ↦ get_chunks a from to [] (2 ^ 31 - 1)
    | some rob ↦ elim (Reorder.get rob) [
      | [] ↦ get_chunks a from to [] (2 ^ 31 - 1)
      | p ∷ ps ↦
          if leb p.ts from
          then some (ok (record { points = p ∷ ps; iters = []; oldest = p.ts }))
          else get_chunks a from to (p ∷ ps) p.ts
    ]
  ]
