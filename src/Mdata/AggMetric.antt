-- ===== src/Mdata/AggMetric.antt =====
-- mdata/aggmetric.go: the chunks of one metric in a ring, and the aggregators behind it.
-- `none` is a panic. The lock makes each method one step. The aggregators are of any type, with
-- what `Add` and `GC` of aggregator.go do to one: `Aggregator.antt` ties the two files together.
pub mod Write
pub mod Ring
pub mod Persist
pub mod Read
pub mod Close
use metrictank.Common.{
  ℕ, zero, suc, ◌+◌, ◌-◌, ◌*◌, ◌/◌, ◌%◌, Bool, true, false, ◌&&◌, ◌||◌, not, List, [], ◌∷◌, ◌++◌,
  Option, none, some, ltb, leb, ◌==◌, if◌then◌else◌, get_elem?, set, length, reverse,
}
use metrictank.Common.Words.{u32_mod, add32, sub32}
use metrictank.Schema.{Point, AmKey}
use metrictank.Schema.Archive.{archive_span}
use metrictank.Chunk.{Chunk, new_chunk, new_first, finish, encode_chunk}
use metrictank.Chunk
use metrictank.Chunk.IterGen.{IterGen, new_iter_gen}
use metrictank.Chunk.IterGen
use metrictank.Mdata.Errors.{Result, ok, err}
use metrictank.Mdata.World.{Env, World, ChunkWriteRequest}
use metrictank.Mdata.Reorder.{ReorderBuffer}
use metrictank.Mdata.Reorder
use metrictank.Util.Atomic.{bump}

infixl 5 ◌>>=◌
abbrev pub ◌>>=◌ {ℓ κ} : {A : Type ℓ} {B : Type κ} → Option A → (A → Option B) → Option B
none >>= f = none
some a >>= f = f a

-- `AggMetric`.
pub record AggMetric (Agg : Type 0) : Type 0 where
  pub key : AmKey
  pub rob : Option ReorderBuffer
  pub current_chunk_pos : ℕ
  pub num_chunks : ℕ
  pub chunk_span : ℕ
  pub chunks : List Chunk
  pub aggregators : List Agg
  pub drop_first_chunk : Bool
  pub ingest_from_t0 : ℕ
  pub future_tolerance : ℕ
  pub ttl : ℕ
  pub last_save_start : ℕ
  pub last_write : ℕ
  pub first_ts : ℕ

-- The position before `pos` in a ring of `len` chunks, and the one behind it.
unfoldable pub pos_before : ℕ → ℕ → ℕ
pos_before pos len = if pos == 0 then len - 1 else pos - 1

unfoldable pub pos_behind : ℕ → ℕ → ℕ
pos_behind pos len = if leb len (pos + 1) then 0 else pos + 1

-- The pending chunks of `persist`, newest first: the loop over the older chunks that were not
-- saved. Each round goes back one position, so a round trip is enough fuel.
unfoldable pub unsaved : ℕ → List Chunk → ℕ → ℕ → ℕ → Option (List Chunk)
unfolding pos_before
unsaved zero chunks pos t0 last_save_start = none
unsaved (suc fuel) chunks pos t0 last_save_start =
    let previous = pos_before pos (length chunks) in
    let rest = unsaved fuel chunks previous t0 last_save_start in
    get_elem? chunks previous >>= λ c.
    if ltb c.series.t0 t0 && ltb last_save_start c.series.t0
    then (rest >>= λ cs. some (c ∷ cs))
    else some []

module _ {Agg : Type 0} where
  -- `NewChunkWriteRequest` as `persist` calls it.
  unfoldable pub write_request : Env → AggMetric Agg → Chunk → Option ChunkWriteRequest
  write_request env a c = encode_chunk c a.chunk_span >>= λ content. some (record {
    key = a.key;
    ttl = a.ttl;
    t0 = c.series.t0;
    content = content;
    timestamp = env.now;
  })

  unfoldable pub write_requests : Env → AggMetric Agg → List Chunk → Option (List ChunkWriteRequest)
  unfolding write_request
  write_requests env a [] = some []
  write_requests env a (c ∷ cs) =
      write_request env a c >>= λ r. write_requests env a cs >>= λ rs. some (r ∷ rs)

  -- `persist`. The pending requests are sent last to first.
  unfoldable pub persist : Env → AggMetric Agg → ℕ → World → Option (AggMetric Agg × World)
  unfolding unsaved write_requests bump
  persist env a pos w = get_elem? a.chunks pos >>= λ c.
      if leb c.series.t0 a.last_save_start
      then some (a, w)
      else (unsaved (length a.chunks) a.chunks pos c.series.t0 a.last_save_start >>= λ older.
          write_requests env a (c ∷ older) >>= λ pending. some (
            record a { last_save_start = bump a.last_save_start c.series.t0 },
            record w { stored = w.stored ++ reverse pending },
          ))

  -- `pushToCache`. Should the bytes be refused, the source logs it and hands on an empty `IterGen`.
  unfoldable pub push_to_cache : Env → AggMetric Agg → Chunk → World → Option World
  push_to_cache env a c w =
      if not env.has_cache_pusher
      then some w
      else (encode_chunk c a.chunk_span >>= λ content.
          elim (new_iter_gen c.series.t0 (archive_span a.key.archive) content) [
            | IterGen.ok gen ↦ some (record w { pushed = w.pushed ++ (a.key, gen) ∷ [] })
            | IterGen.err e ↦ some (record w {
              pushed = w.pushed ++ (a.key, record { t0 = 0; interval_hint = 0; b = [] }) ∷ [];
            })
          ])

  -- The lines of `add` and `GC` that close the chunk at a position.
  unfoldable pub close : Env → AggMetric Agg → ℕ → Chunk → World → Option (AggMetric Agg × World)
  unfolding push_to_cache persist
  close env a pos c w =
      let a' = record a { chunks = set a.chunks pos (finish c) } in
      push_to_cache env a' (finish c) w >>= λ w'.
      if env.is_primary then persist env a' pos w' else some (a', w')

  -- The branch of `add` for a point behind the current chunk's span.
  unfoldable pub add_next :
      Env → AggMetric Agg → ℕ → ℕ → ℕ → Chunk → World → Option (AggMetric Agg × World)
  unfolding close pos_behind
  add_next env a ts val t0 current w = do
    (a', w') ← close env a a.current_chunk_pos current w
    let pos = pos_behind a.current_chunk_pos a.num_chunks
    let chunks =
        if ltb (length a'.chunks) a.num_chunks
        then a'.chunks ++ new_chunk t0 ∷ []
        else set a'.chunks pos (new_chunk t0)
    c ← get_elem? chunks pos
    elim (Chunk.push c ts val) [
      | err e ↦ none
      | ok c' ↦ some (
        record a' { current_chunk_pos = pos; chunks = set chunks pos c'; last_write = env.now },
        w',
      )
    ]

  -- The branch of `add` for the very first point.
  unfoldable pub add_first : Env → AggMetric Agg → ℕ → ℕ → ℕ → Option (AggMetric Agg)
  add_first env a ts val t0 = elim (Chunk.push (new_first t0) ts val) [
    | err e ↦ none
    | ok c ↦ some (record a {
      chunks = c ∷ [];
      first_ts = ts;
      last_write = env.now;
      last_save_start = if a.drop_first_chunk then bump a.last_save_start t0 else a.last_save_start;
    })
  ]

  -- `add` before the aggregators: the new metric, and whether the point was taken.
  unfoldable pub add_raw :
      Env → AggMetric Agg → ℕ → ℕ → World → Option (AggMetric Agg × Bool × World)
  unfolding add_first add_next
  add_raw env a ts val w =
      let t0 = ts - ts % a.chunk_span in
      if length a.chunks == 0
      then (add_first env a ts val t0 >>= λ a'. some (a', true, w))
      else (get_elem? a.chunks a.current_chunk_pos >>= λ current.
          if t0 == current.series.t0
          then (if current.series.finished
              then some (a, false, w)
              else elim (Chunk.push current ts val) [
                | err e ↦ some (a, false, w)
                | ok c ↦ some (
                  record a { chunks = set a.chunks a.current_chunk_pos c; last_write = env.now },
                  true,
                  w,
                )
              ])
          else if ltb t0 current.series.t0
          then some (a, false, w)
          else (add_next env a ts val t0 current w >>= λ r. some (r.0, true, r.1)))
