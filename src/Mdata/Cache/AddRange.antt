-- ===== src/Mdata/Cache/AddRange.antt =====
-- `AddRange` of mdata/cache/ccache_metric.go. `none` is a panic.
use metrictank.Common.{ℕ, ◌&&◌, not, List, [], ◌∷◌, ◌++◌, Option, some, ltb, ◌==◌, if◌then◌else◌}
use metrictank.Common.Words.{sub32}
use metrictank.Chunk.IterGen.{IterGen}
use metrictank.Mdata.AggMetric.{◌>>=◌}
use metrictank.Mdata.Cache.{
  CacheChunk, CacheMetric, is_cached, set_next, set_prev, put, sort, next_ts_core, seek_desc,
  previous, last_key, add,
}

abbrev key_if_new : ℕ → CacheMetric → List ℕ
key_if_new ts m = if is_cached ts m.chunks then m.keys else m.keys ++ ts ∷ []

-- The first chunk of the range; `next` is the timestamp of the second one.
unfoldable pub add_head : CacheMetric → ℕ → IterGen → ℕ → Option CacheMetric
unfolding is_cached set_next put seek_desc previous
add_head m prev itgen next =
    let ts = itgen.t0 in
    let link : ℕ → List CacheChunk → CacheMetric = λ p cs. record m {
      chunks = put (record { ts = ts; prev = p; next = next; itgen = itgen }) cs;
      keys = m.keys ++ ts ∷ [];
    } in
    if is_cached ts m.chunks
    then some (record m { chunks = set_next ts next m.chunks })
    else (seek_desc m.chunks m.keys (sub32 ts 1) >>= λ res.
        let p = previous prev res in
        some (
          if not (p == 0) && not (sub32 ts p == sub32 next ts)
          then link 0 m.chunks
          else if is_cached p m.chunks
          then link p (set_next p ts m.chunks)
          else link 0 m.chunks))

-- The last chunk of the range.
unfoldable pub add_last : CacheMetric → ℕ → IterGen → Option CacheMetric
unfolding is_cached set_prev put next_ts_core
add_last m prev itgen =
    let ts = itgen.t0 in
    if is_cached ts m.chunks
    then some (record m { chunks = set_prev ts prev m.chunks })
    else (next_ts_core itgen prev 0 >>= λ next.
        let is_linked = not (next == ts) && is_cached next m.chunks in
        let chunk : CacheChunk = record {
          ts = ts;
          prev = prev;
          next = if is_linked then next else 0;
          itgen = itgen;
        } in
        some (record m {
          chunks = put chunk (if is_linked then set_prev next ts m.chunks else m.chunks);
          keys = m.keys ++ ts ∷ [];
        }))

-- The chunks behind the first one: all but the last are put in place of what was cached.
unfoldable pub add_rest : CacheMetric → ℕ → IterGen → List IterGen → Option CacheMetric
unfolding is_cached put add_last
add_rest m prev itgen [] = add_last m prev itgen
add_rest m prev itgen (g ∷ gs) =
    let chunk : CacheChunk = record { ts = itgen.t0; prev = prev; next = g.t0; itgen = itgen } in
    add_rest (record m { chunks = put chunk m.chunks; keys = key_if_new itgen.t0 m }) itgen.t0 g gs

-- `AddRange`.
unfoldable pub add_range : CacheMetric → ℕ → List IterGen → Option CacheMetric
unfolding add add_head add_rest last_key sort
add_range m prev [] = some m
add_range m prev (g ∷ []) = add m prev g
add_range m prev (g ∷ h ∷ gs) = add_head m prev g h.t0 >>= λ m'. add_rest m' g.t0 h gs >>= λ done.
    some (if ltb g.t0 (last_key m.keys) then record done { keys = sort done.keys } else done)
