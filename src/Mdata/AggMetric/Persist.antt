-- ===== src/Mdata/AggMetric/Persist.antt =====
-- `persist` of mdata/aggmetric.go: the chunks that it queues.
use mathlib.Core.List.{reverse-cons}
use metrictank.Common.{
  ℕ, ◌≤◌, ◌<◌, ◌≡◌, ◌⊎◌, refl, ap, ◌∙◌, inl, inr, List, [], ◌∷◌, ◌++◌, reverse, some, leb,
  get_elem?, length, arith, Bool-cases,
}
use metrictank.Chunk.{Chunk, encode, encode_chunk}
use metrictank.Tsz.SeriesLong.{series_bytes}
use metrictank.Chunk.Spans.{rev_chunk_spans}
use metrictank.Mdata.World.{Env, World, ChunkWriteRequest}
use metrictank.Mdata.AggMetric.{AggMetric, ◌>>=◌, write_request, write_requests, persist}
use metrictank.Mdata.AggMetric.Ring.{unsaved-total, Unsaved, unsaved-Unsaved}
use metrictank.Util.Atomic.{bump-eq-max}

-- A span that `encode` has a code for.
abbrev pub Encodes : ℕ → Type 0
Encodes span = (code : ℕ) × (rev_chunk_spans span ≡ some code)

pub encode_chunk-total :
    (c : Chunk) (span : ℕ) → Encodes span → (b : List ℕ) × (encode_chunk c span ≡ some b)
unfolding encode_chunk encode
encode_chunk-total c span (code, e) = (2 ∷ code ∷ series_bytes c.series, ground arith)

-- A request for a chunk of a metric.
pub record RequestFor {Agg : Type 0} (env : Env) (a : AggMetric Agg) (c : Chunk)
    (r : ChunkWriteRequest) : Type 0 where
  pub key : r.key ≡ a.key
  pub ttl : r.ttl ≡ a.ttl
  pub start : r.t0 ≡ c.series.t0
  pub content : encode_chunk c a.chunk_span ≡ some r.content
  pub timestamp : r.timestamp ≡ env.now

-- The requests for some chunks, in the same order.
abbrev pub Requests :
    {Agg : Type 0} → Env → AggMetric Agg → List Chunk → List ChunkWriteRequest → Type 0
Requests env a [] [] = Unit {0}
Requests env a [] (r ∷ rs) = ⊥
Requests env a (c ∷ cs) [] = ⊥
Requests env a (c ∷ cs) (r ∷ rs) = RequestFor env a c r × Requests env a cs rs

module _ {Agg : Type 0} (env : Env) (a : AggMetric Agg) (en : Encodes a.chunk_span) where
  write_request-total :
      (c : Chunk)
      → (r : ChunkWriteRequest) × (write_request env a c ≡ some r) × RequestFor env a c r
  unfolding write_request
  write_request-total c =
      let (b, e) = encode_chunk-total c a.chunk_span en in
      let r : ChunkWriteRequest = record {
        key = a.key;
        ttl = a.ttl;
        t0 = c.series.t0;
        content = b;
        timestamp = env.now;
      } in
      (r, rw e, record { key = refl; ttl = refl; start = refl; content = e; timestamp = refl })

  write_requests-total :
      (cs : List Chunk)
      → (rs : List ChunkWriteRequest) × (write_requests env a cs ≡ some rs) × Requests env a cs rs
  unfolding write_requests
  write_requests-total [] = ([], refl, tt)
  write_requests-total (c ∷ cs) =
      let (r, e, is_for) = write_request-total c in
      let (rs, es, all) = write_requests-total cs in (r ∷ rs, rw (e, es), (is_for, all))

-- What a call of `persist` on the chunk `c` at `pos` leaves: behind what was queued the requests for
-- all the chunks before it that are not saved, the oldest first, and then its own.
pub record Persisted {Agg : Type 0} (env : Env) (a : AggMetric Agg) (pos : ℕ) (c : Chunk)
    (w : World) (a' : AggMetric Agg) (w' : World) : Type 0 where
  pub metric : a' ≡ record a { last_save_start = c.series.t0 }
  pub older : List Chunk
  pub are_unsaved : Unsaved a.chunks a.last_save_start c.series.t0 pos older
  pub pending : List ChunkWriteRequest
  pub are_pending : Requests env a older pending
  pub request : ChunkWriteRequest
  pub is_request : RequestFor env a c request
  pub queue : w'.stored ≡ w.stored ++ (reverse pending ++ request ∷ [])
  pub cache : w'.pushed ≡ w.pushed

-- `persist` of a chunk of the ring never panics and always returns, for a span that has a code. A
-- chunk that does not start behind the last save is left alone. For any other, the chunks right before
-- it in the ring are queued, the oldest first, as far back as they start behind the last save and
-- before the chunk, and then the chunk, each with its key, ttl, start and encoded content; the last
-- save moves to its start, and the rest of the metric and of the world stays.
pub persist-Persisted :
    {Agg : Type 0} (env : Env) (a : AggMetric Agg) (pos : ℕ) (c : Chunk) (w : World)
    → Encodes a.chunk_span
    → get_elem? a.chunks pos ≡ some c
    → pos < length a.chunks
    → ((c.series.t0 ≤ a.last_save_start) × (persist env a pos w ≡ some (a, w)))
      ⊎ ((a.last_save_start < c.series.t0)
          × ((a' : AggMetric Agg) × (w' : World) × (persist env a pos w ≡ some (a', w'))
              × Persisted env a pos c w a' w'))
unfolding persist write_requests
persist-Persisted env a pos c w en e lt = elim (Bool-cases (leb c.series.t0 a.last_save_start)) [
  | inl saved ↦ inl (ground arith, rw (e, ◌>>=◌, saved))
  | inr fresh ↦
      let (cs, ec) =
        unsaved-total (length a.chunks) a.chunks pos pos a.last_save_start c e lt lt
          (ground arith) in
      let (r, er, is_for) = write_request-total env a en c in
      let (rs, ers, all) = write_requests-total env a en cs in
      inr (
        ground arith,
        (
          _,
          _,
          rw (e, ◌>>=◌, fresh, ec, er, ers),
          record {
            metric =
                ap (λ n. record a { last_save_start = n })
                  (bump-eq-max a.last_save_start c.series.t0 ∙ ground arith);
            older = cs;
            are_unsaved =
                unsaved-Unsaved (length a.chunks) a.chunks pos c.series.t0 a.last_save_start
                  (omega (arith, lt)) ec;
            pending = rs;
            are_pending = all;
            request = r;
            is_request = is_for;
            queue = ap (◌++◌ w.stored) (reverse-cons r rs);
            cache = refl;
          },
        ),
      )
]
