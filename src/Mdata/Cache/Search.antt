-- ===== src/Mdata/Cache/Search.antt =====
-- `searchForward`, `searchBackward` and `Search` of mdata/cache/ccache_metric.go, and the result of
-- mdata/cache/if.go. The two walks along the links run on fuel: `none` is a panic, or no end of the
-- links within it.
use metrictank.Common.{
  ℕ, zero, suc, not, ◌&&◌, List, [], ◌∷◌, ◌++◌, Option, none, some, ltb, leb, ◌==◌, if◌then◌else◌,
  length,
}
use metrictank.Common.Words.{sub32}
use metrictank.Chunk.IterGen.{IterGen}
use metrictank.Mdata.AggMetric.{◌>>=◌}
use metrictank.Mdata.Cache.{CacheMetric, find, next_ts, seek_asc, seek_desc}

-- `ResultType` and `CCSearchResult`.
pub data ResultType : Type 0 where
  miss hit hit_partial : ResultType

pub record SearchResult : Type 0 where
  pub type : ResultType
  pub start : List IterGen
  pub end : List IterGen
  pub from : ℕ
  pub until : ℕ

-- The loop of `searchForward`.
unfoldable pub walk_forward : ℕ → CacheMetric → ℕ → SearchResult → Option SearchResult
unfolding find next_ts
walk_forward zero m ts res = none
walk_forward (suc fuel) m ts res =
    if ts == 0
    then some res
    else (find ts m.chunks >>= λ c. next_ts m.chunks ts >>= λ next.
        let res' = record res { start = res.start ++ c.itgen ∷ []; from = next } in
        let rest = walk_forward fuel m c.next res' in
        if leb res.until next
        then some (record res' { type = hit })
        else if not (c.next == 0) && leb c.next ts
        then some res'
        else rest)

abbrev partly : ResultType → List IterGen → ResultType
partly hit itgens = hit
partly type [] = type
partly type (g ∷ gs) = hit_partial

-- `searchForward`. The caller's `until` is the one that the result starts with.
unfoldable pub search_forward : CacheMetric → ℕ → SearchResult → Option SearchResult
unfolding seek_asc walk_forward
search_forward m from res = seek_asc m from >>= λ found. elim found [
  | none ↦ some res
  | some ts ↦ walk_forward (suc (length m.chunks)) m ts res >>= λ res'.
      some (record res' { type = partly res'.type res'.start })
]

-- The loop of `searchBackward`.
unfoldable pub walk_backward : ℕ → CacheMetric → ℕ → ℕ → SearchResult → Option SearchResult
unfolding find
walk_backward zero m from ts res = none
walk_backward (suc fuel) m from ts res =
    if ts == 0
    then some res
    else if ltb ts from
    then some res
    else (find ts m.chunks >>= λ c.
        walk_backward fuel m from c.prev (record res { end = res.end ++ c.itgen ∷ []; until = ts }))

abbrev partly_missed : ResultType → List IterGen → ResultType
partly_missed miss (g ∷ gs) = hit_partial
partly_missed type itgens = type

-- `searchBackward`.
unfoldable pub search_backward : CacheMetric → ℕ → ℕ → SearchResult → Option SearchResult
unfolding seek_desc walk_backward
search_backward m from until res = seek_desc m.chunks m.keys (sub32 until 1) >>= λ found.
    elim found [
      | none ↦ some res
      | some ts ↦ walk_backward (suc (length m.chunks)) m from ts res >>= λ res'.
          some (record res' { type = partly_missed res'.type res'.end })
    ]

-- `Search`, with the result that the caller of the source sets up.
unfoldable pub search : CacheMetric → ℕ → ℕ → Option SearchResult
unfolding search_forward search_backward
search m from until =
    let res : SearchResult = record {
      type = miss;
      start = [];
      end = [];
      from = from;
      until = until;
    } in
    if length m.chunks == 0
    then some res
    else (search_forward m from res >>= λ forward. elim forward.type [
      | hit ↦ some forward
      | type ↦ search_backward m from until forward >>= λ both.
          if ltb both.until both.from then some res else some both
    ])
