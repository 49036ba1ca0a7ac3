-- ===== src/Mdata/Cache.antt =====
-- mdata/cache/ccache_metric.go: the chunks of one metric in the cache, each linked to its
-- neighbours in time. The lock makes each method one step. `none` is a panic.
pub mod Search
pub mod View
pub mod Add
pub mod Del
pub mod Seek
pub mod AddRange
use metrictank.Common.{
  ℕ, zero, suc, ◌+◌, ◌-◌, Bool, true, false, ◌&&◌, ◌||◌, not, List, [], ◌∷◌, ◌++◌, map, reverse,
  Option, none, some, ltb, leb, ◌==◌, if◌then◌else◌, length,
}
use metrictank.Common.Words.{add32, sub32}
use metrictank.Chunk.IterGen.{IterGen, gen_span}
use metrictank.Mdata.AggMetric.{◌>>=◌}

-- `CCacheChunk`. A neighbour of 0 is not cached.
pub record CacheChunk : Type 0 where
  pub ts : ℕ
  pub prev : ℕ
  pub next : ℕ
  pub itgen : IterGen

-- `CCacheMetric`: the map of chunks by their timestamp, and the timestamps in ascending order.
pub record CacheMetric : Type 0 where
  pub chunks : List CacheChunk
  pub keys : List ℕ
  pub mkey : ℕ

-- `mc.chunks[ts]`.
unfoldable pub find : ℕ → List CacheChunk → Option CacheChunk
find ts [] = none
find ts (c ∷ cs) = let rest = find ts cs in if c.ts == ts then some c else rest

unfoldable pub is_cached : ℕ → List CacheChunk → Bool
unfolding find
is_cached ts cs = elim (find ts cs) [ none ↦ false | some c ↦ true ]

-- `mc.chunks[ts].Next = next`, and the same for `Prev`, where the chunk is cached.
unfoldable pub set_next : ℕ → ℕ → List CacheChunk → List CacheChunk
set_next ts next [] = []
set_next ts next (c ∷ cs) =
    (if c.ts == ts then record c { next = next } else c) ∷ set_next ts next cs

unfoldable pub set_prev : ℕ → ℕ → List CacheChunk → List CacheChunk
set_prev ts prev [] = []
set_prev ts prev (c ∷ cs) =
    (if c.ts == ts then record c { prev = prev } else c) ∷ set_prev ts prev cs

-- `delete(mc.chunks, ts)`.
unfoldable pub remove : ℕ → List CacheChunk → List CacheChunk
remove ts [] = []
remove ts (c ∷ cs) = let rest = remove ts cs in if c.ts == ts then rest else c ∷ rest

-- `mc.chunks[c.Ts] = c`.
unfoldable pub put : CacheChunk → List CacheChunk → List CacheChunk
unfolding remove
put c cs = c ∷ remove c.ts cs

-- `sort.Sort` of timestamps.
unfoldable pub insert : ℕ → List ℕ → List ℕ
insert k [] = k ∷ []
insert k (x ∷ xs) = let rest = insert k xs in if leb k x then k ∷ x ∷ xs else x ∷ rest

unfoldable pub sort : List ℕ → List ℕ
unfolding insert
sort [] = []
sort (x ∷ xs) = insert x (sort xs)

-- `generateKeys`.
unfoldable pub generate_keys : List CacheChunk → List ℕ
unfolding sort
generate_keys cs = sort (map (λ (c : CacheChunk). c.ts) cs)

-- `NewCCacheMetric`.
unfoldable pub new : ℕ → CacheMetric
new mkey = record { chunks = []; keys = []; mkey = mkey }

-- `Del`: the metric and how many chunks are left.
unfoldable pub del : CacheMetric → ℕ → CacheMetric × ℕ
unfolding find set_next set_prev remove generate_keys
del m ts = elim (find ts m.chunks) [
  | none ↦ (m, length m.chunks)
  | some c ↦
      let unlinked = if c.prev == 0 then m.chunks else set_next c.prev 0 m.chunks in
      let alone = if c.next == 0 then unlinked else set_prev c.next 0 unlinked in
      let left = remove ts alone in
      (record m { chunks = left; keys = generate_keys left }, length left)
]

-- The part of `nextTsCore` behind the span.
abbrev pub next_by : ℕ → ℕ → ℕ → ℕ → ℕ
next_by t0 span prev next =
    if ltb 0 span
    then add32 t0 span
    else if not (next == 0)
    then next
    else if not (prev == 0)
    then add32 t0 (sub32 t0 prev)
    else t0

-- `nextTsCore`, which panics where `Span` does.
unfoldable pub next_ts_core : IterGen → ℕ → ℕ → Option ℕ
unfolding gen_span
next_ts_core itgen prev next = gen_span itgen >>= λ span. some (next_by itgen.t0 span prev next)

-- `nextTs`, which panics for a timestamp that has no chunk.
unfoldable pub next_ts : List CacheChunk → ℕ → Option ℕ
unfolding find next_ts_core
next_ts cs ts = find ts cs >>= λ c. next_ts_core c.itgen c.prev c.next

-- The loop of `seekAsc` over the keys, and that of `seekDesc` over the keys in reverse.
unfoldable pub seek_up : List CacheChunk → List ℕ → ℕ → Option (Option ℕ)
unfolding next_ts
seek_up cs [] ts = some none
seek_up cs (k ∷ ks) ts =
    let rest = seek_up cs ks ts in
    if leb k ts then (next_ts cs k >>= λ n. if ltb ts n then some (some k) else rest) else some none

unfoldable pub seek_down : List CacheChunk → List ℕ → ℕ → Option (Option ℕ)
unfolding next_ts
seek_down cs [] ts = some none
seek_down cs (k ∷ ks) ts =
    let rest = seek_down cs ks ts in
    next_ts cs k >>= λ n.
    if not (ltb ts n) then some none else if leb k ts then some (some k) else rest

-- `seekAsc` and `seekDesc`: the timestamp of the chunk that holds `ts`, where there is one.
unfoldable pub seek_asc : CacheMetric → ℕ → Option (Option ℕ)
unfolding seek_up
seek_asc m ts = seek_up m.chunks m.keys ts

unfoldable pub seek_desc : List CacheChunk → List ℕ → ℕ → Option (Option ℕ)
unfolding seek_down
seek_desc cs keys ts = seek_down cs (reverse keys) ts

-- The lines of `Add` and `AddRange` that find out the previous chunk, where it was not passed.
unfoldable pub previous : ℕ → Option ℕ → ℕ
previous prev none = prev
previous prev (some res) = if prev == 0 then res else prev

-- The keys of `Add`: sorted again when the last key is out of order.
unfoldable pub last_key : List ℕ → ℕ
last_key [] = 0
last_key (k ∷ []) = k
last_key (k ∷ l ∷ ks) = last_key (l ∷ ks)

unfoldable pub add_key : List ℕ → ℕ → List ℕ
unfolding last_key sort
add_key [] ts = ts ∷ []
add_key (k ∷ ks) ts =
    if ltb ts (last_key (k ∷ ks)) then sort ((k ∷ ks) ++ ts ∷ []) else (k ∷ ks) ++ ts ∷ []

-- The links of `Add` to the chunk before and to the chunk after.
unfoldable pub link_prev : ℕ → ℕ → List CacheChunk → List CacheChunk
unfolding is_cached set_next set_prev
link_prev prev ts cs = if is_cached prev cs then set_prev ts prev (set_next prev ts cs) else cs

unfoldable pub link_next : ℕ → ℕ → List CacheChunk → List CacheChunk
unfolding is_cached set_next set_prev
link_next next ts cs =
    if ltb ts next && is_cached next cs then set_next ts next (set_prev next ts cs) else cs

-- `Add`.
unfoldable pub add : CacheMetric → ℕ → IterGen → Option CacheMetric
unfolding is_cached put next_ts seek_desc previous link_prev link_next add_key
add m prev itgen =
    let ts = itgen.t0 in
    let cs = put (record { ts = ts; prev = 0; next = 0; itgen = itgen }) m.chunks in
    if is_cached ts m.chunks
    then some m
    else (next_ts cs ts >>= λ next. seek_desc cs m.keys (sub32 ts 1) >>= λ res. some (record m {
      chunks = link_next next ts (link_prev (previous prev res) ts cs);
      keys = add_key m.keys ts;
    }))
