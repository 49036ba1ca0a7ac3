-- ===== src/Mdata/Accnt.antt =====
-- mdata/cache/accnt: which chunks of the cache are in memory, their size, and which were used last.
-- The statistics that only report are left out; `used` is `cacheSizeUsed`, which the loop tests.
pub mod Assoc
pub mod Recent
pub mod Sizes
pub mod Valid
pub mod Evict
pub mod Bounded
use metrictank.Common.{
  ℕ, zero, suc, ◌+◌, ◌-◌, ◌%◌, ◌^◌, Bool, true, false, ◌&&◌, ◌||◌, List, [], ◌∷◌, ◌++◌, Option,
  none, some, ltb, leb, ◌==◌, if◌then◌else◌, length,
}
use metrictank.Schema.{AmKey}
use metrictank.Chunk.IterGen.{IterGen, gen_size}
use metrictank.Mdata.Cache.{sort}
use Assoc.{lookup, delete, put}

-- `EvictTarget`: a chunk of a metric.
pub record EvictTarget : Type 0 where
  pub metric : AmKey
  pub ts : ℕ

abbrev pub same_key : AmKey → AmKey → Bool
same_key a b = a.mkey == b.mkey && a.archive == b.archive

abbrev pub same_target : EvictTarget → EvictTarget → Bool
same_target a b = same_key a.metric b.metric && a.ts == b.ts

-- `LRU`: the list, the most recently used target first. Its map leads from a target to its place in
-- the list; `contains` is that map's test.
abbrev pub contains : EvictTarget → List EvictTarget → Bool
contains x [] = false
contains x (y ∷ l) = same_target x y || contains x l

abbrev pub unlink : EvictTarget → List EvictTarget → List EvictTarget
unlink x [] = []
unlink x (y ∷ l) = let rest = unlink x l in if same_target x y then l else y ∷ rest

-- `touch`.
unfoldable pub touch : EvictTarget → List EvictTarget → List EvictTarget
touch x l = if contains x l then x ∷ unlink x l else x ∷ l

-- `del`.
unfoldable pub del : EvictTarget → List EvictTarget → List EvictTarget
del x l = if contains x l then unlink x l else l

-- `pop`: the least recently used target and the others.
abbrev pub with_first :
    EvictTarget → Option (EvictTarget × List EvictTarget) → EvictTarget × List EvictTarget
with_first x none = (x, [])
with_first x (some (y, l)) = (y, x ∷ l)

unfoldable pub pop : List EvictTarget → Option (EvictTarget × List EvictTarget)
pop [] = none
pop (x ∷ l) = some (with_first x (pop l))

-- `reset`, of at most `n` rounds.
unfoldable pub reset : ℕ → List EvictTarget → Option (List EvictTarget)
unfolding pop
reset zero l = none
reset (suc n) l = elim (pop l) [ none ↦ some l | some (x, l') ↦ reset n l' ]

-- `FlatAccntMet`: the sizes of a metric's chunks.
pub record FlatAccntMet : Type 0 where
  pub total : ℕ
  pub chunks : List (ℕ × ℕ)

-- `FlatAccnt`, with what was sent on its evict queue, the last first.
pub record FlatAccnt : Type 0 where
  pub metrics : List (AmKey × FlatAccntMet)
  pub max_size : ℕ
  pub lru : List EvictTarget
  pub evict_q : List EvictTarget
  pub used : ℕ

-- `NewFlatAccnt`.
unfoldable pub new_flat_accnt : ℕ → FlatAccnt
new_flat_accnt max_size = record {
  metrics = [];
  max_size = max_size;
  lru = [];
  evict_q = [];
  used = 0;
}

abbrev pub add64 : ℕ → ℕ → ℕ
add64 a b = (a + b) % 2 ^ 64

-- `DecUint64`.
abbrev pub sub64 : ℕ → ℕ → ℕ
sub64 a b = (a + (2 ^ 64 - b % 2 ^ 64)) % 2 ^ 64

-- The metric of a key, and a new one where there is none.
abbrev pub metric_or_new : Option FlatAccntMet → FlatAccntMet
metric_or_new none = record { total = 0; chunks = [] }
metric_or_new (some met) = met

-- A chunk of a size that is not there yet, and what it adds to the size.
unfoldable pub add_chunk : List (ℕ × ℕ) → ℕ → ℕ → List (ℕ × ℕ) × ℕ
add_chunk chunks ts size = elim (lookup ◌==◌ ts chunks) [
  | none ↦ (put ◌==◌ ts size chunks, size)
  | some s ↦ (chunks, 0)
]

-- The loop of `addRange`, with `sizeDiff`.
unfoldable pub add_chunks : List IterGen → List (ℕ × ℕ) → ℕ → List (ℕ × ℕ) × ℕ
unfolding add_chunk
add_chunks [] chunks size_diff = (chunks, size_diff)
add_chunks (c ∷ cs) chunks size_diff =
    let added = add_chunk chunks c.t0 (gen_size c) in
    add_chunks cs added.0 (add64 size_diff added.1)

-- The end of `add` and `addRange`.
abbrev pub grown : FlatAccnt → AmKey → FlatAccntMet → List (ℕ × ℕ) × ℕ → FlatAccnt
grown a metric met added = record a {
  metrics =
      put same_key metric (record { total = add64 met.total added.1; chunks = added.0 }) a.metrics;
  used = add64 a.used added.1;
}

-- `add`.
unfoldable pub add : FlatAccnt → AmKey → ℕ → ℕ → FlatAccnt
unfolding add_chunk
add a metric ts size =
    let met = metric_or_new (lookup same_key metric a.metrics) in
    grown a metric met (add_chunk met.chunks ts size)

-- `addRange`.
unfoldable pub add_range : FlatAccnt → AmKey → List IterGen → FlatAccnt
unfolding add_chunks
add_range a metric chunks =
    let met = metric_or_new (lookup same_key metric a.metrics) in
    grown a metric met (add_chunks chunks met.chunks 0)

-- The targets of a metric's chunks, taken off the list.
unfoldable pub del_chunks : AmKey → List (ℕ × ℕ) → List EvictTarget → List EvictTarget
unfolding del
del_chunks metric [] l = l
del_chunks metric ((ts, size) ∷ chunks) l =
    del_chunks metric chunks (del (record { metric = metric; ts = ts }) l)

-- `delMet`.
unfoldable pub del_met : FlatAccnt → AmKey → FlatAccnt
unfolding del_chunks
del_met a metric = elim (lookup same_key metric a.metrics) [
  | none ↦ a
  | some met ↦ record a {
    used = sub64 a.used met.total;
    lru = del_chunks metric met.chunks a.lru;
    metrics = delete same_key metric a.metrics;
  }
]

-- The timestamps up to `ts`.
unfoldable pub up_to : ℕ → List (ℕ × ℕ) → List ℕ
up_to ts [] = []
up_to ts ((t, size) ∷ chunks) = let rest = up_to ts chunks in if leb t ts then t ∷ rest else rest

-- A read of the map of sizes.
abbrev pub size_of : Option ℕ → ℕ
size_of none = 0
size_of (some size) = size

-- The loop of `evict` over the chunks: the metric, the size used and the evict queue.
unfoldable pub evict_chunks :
    AmKey → List ℕ → FlatAccntMet → ℕ → List EvictTarget → FlatAccntMet × ℕ × List EvictTarget
evict_chunks metric [] met used q = (met, used, q)
evict_chunks metric (ts ∷ targets) met used q =
    let size = size_of (lookup ◌==◌ ts met.chunks) in
    evict_chunks metric targets
      (record { total = sub64 met.total size; chunks = delete ◌==◌ ts met.chunks })
      (sub64 used size) (record { metric = metric; ts = ts } ∷ q)

-- The end of `evict`: a metric of no size is dropped.
abbrev pub evicted : FlatAccnt → AmKey → FlatAccntMet × ℕ × List EvictTarget → FlatAccnt
evicted a metric (met, used, q) = record a {
  used = used;
  evict_q = q;
  metrics =
      if met.total == 0
      then delete same_key metric a.metrics
      else put same_key metric met a.metrics;
}

-- `evict`.
unfoldable pub evict : FlatAccnt → FlatAccnt
unfolding pop up_to evict_chunks sort
evict a = elim (pop a.lru) [
  | none ↦ a
  | some (target, lru) ↦ elim (lookup same_key target.metric a.metrics) [
    | none ↦ record a { lru = lru }
    | some met ↦
        evicted (record a { lru = lru }) target.metric
          (evict_chunks target.metric (sort (up_to target.ts met.chunks)) met a.used a.evict_q)
  ]
]

-- The loop `for cacheSizeUsed.Peek() > a.maxSize`, of at most `n` rounds; `none` where it goes on.
unfoldable pub evict_loop : ℕ → FlatAccnt → Option FlatAccnt
unfolding evict
evict_loop zero a = if ltb a.max_size a.used then none else some a
evict_loop (suc n) a =
    let rest = evict_loop n (evict a) in if ltb a.max_size a.used then rest else some a

-- An event, with its payload. `evnt_get_total` sends `used` back; `evnt_stop` is the
-- end of a sequence of events.
pub data Event : Type 0 where
  hit_chunk : AmKey → ℕ → Event
  hit_chunks : AmKey → List IterGen → Event
  add_chunk_event : AmKey → ℕ → ℕ → Event
  add_chunks_event : AmKey → List IterGen → Event
  del_metric : AmKey → Event
  get_total reset_all : Event

unfoldable pub touch_all : AmKey → List IterGen → List EvictTarget → List EvictTarget
unfolding touch
touch_all metric [] l = l
touch_all metric (c ∷ cs) l = touch_all metric cs (touch (record { metric = metric; ts = c.t0 }) l)

-- The switch of `eventLoop`.
unfoldable pub handle : FlatAccnt → Event → Option FlatAccnt
unfolding add add_range del_met touch touch_all reset
handle a (add_chunk_event metric ts size) =
    let a' = add a metric ts size in
    some (record a' { lru = touch (record { metric = metric; ts = ts }) a'.lru })
handle a (add_chunks_event metric chunks) =
    let a' = add_range a metric chunks in some (record a' { lru = touch_all metric chunks a'.lru })
handle a (hit_chunk metric ts) =
    some (record a { lru = touch (record { metric = metric; ts = ts }) a.lru })
handle a (hit_chunks metric chunks) = some (record a { lru = touch_all metric chunks a.lru })
handle a (del_metric metric) = some (del_met a metric)
handle a get_total = some a
handle a reset_all = elim (reset (suc (length a.lru)) a.lru) [
  | none ↦ none
  | some l ↦ some (record a { metrics = []; lru = l; used = 0 })
]

-- A round of `eventLoop`, for an event that does not stop it. A round of eviction takes a target off
-- the list, so the list's length is enough fuel.
unfoldable pub event_round : FlatAccnt → Event → Option FlatAccnt
unfolding handle evict_loop
event_round a e = elim (handle a e) [ none ↦ none | some a' ↦ evict_loop (length a'.lru) a' ]

-- `eventLoop` on a sequence of events.
unfoldable pub event_loop : FlatAccnt → List Event → Option FlatAccnt
unfolding event_round
event_loop a [] = some a
event_loop a (e ∷ es) = elim (event_round a e) [ none ↦ none | some a' ↦ event_loop a' es ]
