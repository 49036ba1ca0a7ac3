-- ===== src/Mdata/Ccache.antt =====
-- mdata/cache/ccache.go: the chunk cache over all metrics. The maps are lists of entries; `sent` are
-- the events that were sent to the accounting, the oldest first. A cache that is disabled (nil) does
-- nothing and is left out. `none` is a panic. `AddIfHot` lets its lock go before it adds the chunk;
-- here it is one step.
pub mod Keys
pub mod Consistent
pub mod Run
pub mod Hot
use metrictank.Common.{
  ℕ, Bool, true, false, ◌||◌, ◌&&◌, List, [], ◌∷◌, ◌++◌, Option, none, some, ltb, leb, ◌==◌,
  if◌then◌else◌, length,
}
use metrictank.Common.Maps.{get, erase, put}
use metrictank.Schema.{AmKey}
use metrictank.Chunk.IterGen.{IterGen, gen_size}
use metrictank.Mdata.AggMetric.{◌>>=◌}
use metrictank.Mdata.Cache.{CacheMetric, next_ts, last_key}
use metrictank.Mdata.Cache
use metrictank.Mdata.Cache.AddRange
use metrictank.Mdata.Cache.Search.{SearchResult, ResultType}
use metrictank.Mdata.Cache.Search
use metrictank.Mdata.Accnt.{
  EvictTarget, Event, add_chunk_event, add_chunks_event, hit_chunks, del_metric, reset_all,
  same_key,
}

-- `CCache`: the metrics, and the archives of each raw key.
pub record Ccache : Type 0 where
  pub metric_cache : List (AmKey × CacheMetric)
  pub metric_raw_keys : List (ℕ × List ℕ)
  pub sent : List Event

-- `NewCCache`.
unfoldable pub new_ccache : Ccache
new_ccache = record { metric_cache = []; metric_raw_keys = []; sent = [] }

-- A set of archives.
unfoldable pub has : ℕ → List ℕ → Bool
has a [] = false
has a (b ∷ bs) = b == a || has a bs

unfoldable pub without : ℕ → List ℕ → List ℕ
without a [] = []
without a (b ∷ bs) = let rest = without a bs in if b == a then rest else b ∷ rest

abbrev pub set_or_none : Option (List ℕ) → List ℕ
set_or_none none = []
set_or_none (some as') = as'

-- `c.metricRawKeys[raw]`; a key that is missing has no archive.
abbrev pub archives_of : ℕ → List (ℕ × List ℕ) → List ℕ
archives_of raw m = set_or_none (get ◌==◌ raw m)

-- The lines of `Add` and `AddRange` that note the archive of a new metric.
unfoldable pub track : AmKey → List (ℕ × List ℕ) → List (ℕ × List ℕ)
unfolding has
track k m =
    let archs = archives_of k.mkey m in
    put ◌==◌ k.mkey (if has k.archive archs then archs else k.archive ∷ archs) m

-- The lines of `evict` that forget it.
unfoldable pub untrack : ℕ → ℕ → List (ℕ × List ℕ) → List (ℕ × List ℕ)
unfolding without
untrack raw archive m =
    let left = without archive (archives_of raw m) in
    if length left == 0 then erase ◌==◌ raw m else put ◌==◌ raw left m

-- The metric of a key after `f`, which a metric that is not cached starts empty for.
unfoldable pub update_metric : Ccache → AmKey → (CacheMetric → Option CacheMetric) → Option Ccache
unfolding track
update_metric c metric f = elim (get same_key metric c.metric_cache) [
  | none ↦ f (Cache.new metric.mkey) >>= λ m. some (record c {
    metric_cache = put same_key metric m c.metric_cache;
    metric_raw_keys = track metric c.metric_raw_keys;
  })
  | some m ↦ f m >>= λ m'. some (record c { metric_cache = put same_key metric m' c.metric_cache })
]

abbrev pub send : Ccache → Event → Ccache
send c e = record c { sent = c.sent ++ e ∷ [] }

-- `Add`.
unfoldable pub add : Ccache → AmKey → ℕ → IterGen → Option Ccache
unfolding update_metric
add c metric prev itergen = update_metric c metric (λ m. Cache.add m prev itergen) >>= λ c'.
    some (send c' (add_chunk_event metric itergen.t0 (gen_size itergen)))

-- `AddRange`.
unfoldable pub add_range : Ccache → AmKey → ℕ → List IterGen → Option Ccache
unfolding update_metric
add_range c metric prev [] = some c
add_range c metric prev (g ∷ gs) =
    update_metric c metric (λ m. AddRange.add_range m prev (g ∷ gs)) >>= λ c'.
    some (send c' (add_chunks_event metric (g ∷ gs)))

-- `lastTs` of mdata/cache/ccache_metric.go.
unfoldable pub last_ts : CacheMetric → Option ℕ
last_ts m = elim (m.keys) [ [] ↦ none | k ∷ ks ↦ next_ts m.chunks (last_key (k ∷ ks)) ]

-- `AddIfHot`.
unfoldable pub add_if_hot : Ccache → AmKey → ℕ → IterGen → Option Ccache
unfolding last_ts
add_if_hot c metric prev itergen = elim (get same_key metric c.metric_cache) [
  | none ↦ some c
  | some m ↦ last_ts m >>= λ last.
      if ltb last itergen.t0
      then some c
      else (Cache.add m prev itergen >>= λ m'.
          some (record c { metric_cache = put same_key metric m' c.metric_cache }))
]

-- The loop of `DelMetric` over the archives of the raw key.
unfoldable pub del_archives : ℕ → List ℕ → Ccache → Ccache
del_archives raw [] c = c
del_archives raw (a ∷ as') c =
    let k : AmKey = record { mkey = raw; archive = a } in
    del_archives raw as'
      (send (record c { metric_cache = erase same_key k c.metric_cache }) (del_metric k))

-- `DelMetric`: the cache, and how many series and archives were in it.
unfoldable pub del : Ccache → ℕ → Ccache × ℕ × ℕ
unfolding del_archives
del c raw = elim (get ◌==◌ raw c.metric_raw_keys) [
  | none ↦ (c, 0, 0)
  | some archs ↦
      let c' = del_archives raw archs c in
      (record c' { metric_raw_keys = erase ◌==◌ raw c'.metric_raw_keys }, 1, length archs)
]

-- `Reset`.
unfoldable pub reset : Ccache → Ccache × ℕ × ℕ
reset c = (
  send (record c { metric_cache = []; metric_raw_keys = [] }) reset_all,
  length c.metric_raw_keys,
  length c.metric_cache,
)

-- `evict`.
unfoldable pub evict : Ccache → EvictTarget → Ccache
unfolding untrack
evict c target = elim (get same_key target.metric c.metric_cache) [
  | none ↦ c
  | some m ↦
      let (m', left) = Cache.del m target.ts in
      if left == 0
      then record c {
        metric_cache = erase same_key target.metric c.metric_cache;
        metric_raw_keys = untrack m.mkey (target.metric).archive c.metric_raw_keys;
      }
      else record c { metric_cache = put same_key target.metric m' c.metric_cache }
]

pub data Found : Type 0 where
  invalid_range : Found
  ok : SearchResult → Found

-- `Search`. The chunks that were found are sent as hits by another thread; here they are at once.
unfoldable pub search : Ccache → AmKey → ℕ → ℕ → Option (Found × Ccache)
search c metric from until =
    if leb until from then some (invalid_range, c) else elim (get same_key metric c.metric_cache) [
      | none ↦ some (
        ok (record { type = ResultType.miss; start = []; end = []; from = from; until = until }),
        c,
      )
      | some m ↦ Search.search m from until >>= λ res. elim res.type [
        | ResultType.miss ↦ some (ok res, c)
        | type ↦
            some (ok res, send (send c (hit_chunks metric res.start)) (hit_chunks metric res.end))
      ]
    ]

-- What changes the cache.
pub data Op : Type 0 where
  add_op add_if_hot_op : AmKey → ℕ → IterGen → Op
  add_range_op : AmKey → ℕ → List IterGen → Op
  del_op : ℕ → Op
  evict_op : EvictTarget → Op
  reset_op : Op

unfoldable pub run : Ccache → Op → Option Ccache
unfolding add add_if_hot add_range del evict reset
run c (add_op k prev g) = add c k prev g
run c (add_if_hot_op k prev g) = add_if_hot c k prev g
run c (add_range_op k prev gs) = add_range c k prev gs
run c (del_op raw) = some (del c raw).0
run c (evict_op target) = some (evict c target)
run c reset_op = some (reset c).0
