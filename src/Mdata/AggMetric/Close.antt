-- ===== src/Mdata/AggMetric/Close.antt =====
-- What closing a chunk does: the lines of `add` and `GC` of mdata/aggmetric.go that finish a chunk.
use metrictank.Common.{
  ℕ, zero, suc, ◌≤◌, ◌<◌, ◌≡◌, ◌⊎◌, refl, sym, ap, ◌∙◌, inl, inr, Bool, true, false, not, List, [],
  ◌∷◌, ◌++◌, Option, some, if◌then◌else◌, get_elem?, set, length, length-set, arith, Bool-cases,
}
use metrictank.Chunk.{Chunk, finish, encode_chunk}
use metrictank.Chunk.IterGen.{IterGen, new_iter_gen}
use metrictank.Chunk.IterGen
use metrictank.Schema.Archive.{archive_span}
use metrictank.Mdata.World.{Env, World}
use metrictank.Mdata.AggMetric.{AggMetric, ◌>>=◌, push_to_cache, close, persist}
use metrictank.Mdata.AggMetric.Persist.{Encodes, Persisted, persist-Persisted, encode_chunk-total}

get_elem?-set_self :
    {A : Type 0} (xs : List A) (i : ℕ) (v : A) → i < length xs → get_elem? (set xs i v) i ≡ some v
get_elem?-set_self [] i v h = absurd (omega (arith, h))
get_elem?-set_self (x ∷ xs) zero v h = refl
get_elem?-set_self (x ∷ xs) (suc i) v h = get_elem?-set_self xs i v (omega (arith, h))

-- What `pushToCache` hands on: what `NewIterGen` makes of the bytes, or an empty `IterGen`.
abbrev pub gen_or_empty : IterGen.Result → IterGen
gen_or_empty (IterGen.ok gen) = gen
gen_or_empty (IterGen.err e) = record { t0 = 0; interval_hint = 0; b = [] }

-- The cache is told of the chunk, as it is encoded, under the metric's key, when there is a cache.
abbrev pub Pushed : {Agg : Type 0} → Env → AggMetric Agg → Chunk → World → World → Type 0
Pushed env a c w w' =
    ((env.has_cache_pusher ≡ false) × (w'.pushed ≡ w.pushed))
    ⊎ ((env.has_cache_pusher ≡ true)
        × (b : List ℕ) × (encode_chunk c a.chunk_span ≡ some b)
        × (w'.pushed
            ≡ w.pushed
              ++ (a.key, gen_or_empty (new_iter_gen c.series.t0 (archive_span a.key.archive) b))
                ∷ []))

record Told {Agg : Type 0} (env : Env) (a : AggMetric Agg) (c : Chunk) (w w' : World) : Type 0 where
  stored : w'.stored ≡ w.stored
  pushed : Pushed env a c w w'

-- What a primary node leaves of the metric `b` and the world `w1`: nothing new if the chunk at `pos`
-- does not start behind the last save, else what `persist` of it leaves.
abbrev pub Saved :
    {Agg : Type 0} → Env → AggMetric Agg → ℕ → Chunk → World → AggMetric Agg → World → Type 0
Saved env b pos c w1 a' w' =
    ((c.series.t0 ≤ b.last_save_start) × (a' ≡ b) × (w' ≡ w1))
    ⊎ ((b.last_save_start < c.series.t0) × Persisted env b pos c w1 a' w')

-- The metric with the chunk at `pos` finished.
abbrev pub with_finished : {Agg : Type 0} → AggMetric Agg → ℕ → Chunk → AggMetric Agg
with_finished a pos c = record a { chunks = set a.chunks pos (finish c) }

-- The chunk at `pos` is finished and the cache told; then a primary node persists the chunk, and any
-- other leaves it at that.
pub record Closed {Agg : Type 0} (env : Env) (a : AggMetric Agg) (pos : ℕ) (c : Chunk) (w : World)
    (a' : AggMetric Agg) (w' : World) : Type 0 where
  pub chunks : a'.chunks ≡ set a.chunks pos (finish c)
  pub told : World
  pub stored : told.stored ≡ w.stored
  pub pushed : Pushed env a (finish c) w told
  pub saved :
      ((env.is_primary ≡ true) × Saved env (with_finished a pos c) pos (finish c) told a' w')
      ⊎ ((env.is_primary ≡ false) × (a' ≡ with_finished a pos c) × (w' ≡ told))

not-true : (b : Bool) → not b ≡ true → b ≡ false
not-true false h = refl
not-true true h = sym h

not-false : (b : Bool) → not b ≡ false → b ≡ true
not-false false h = sym h
not-false true h = refl

module _ {Agg : Type 0} (env : Env) (a : AggMetric Agg) (en : Encodes a.chunk_span) where
  push_to_cache-total :
      (c : Chunk) (w : World)
      → (w' : World) × (push_to_cache env a c w ≡ some w') × Told env a c w w'
  unfolding push_to_cache
  push_to_cache-total c w = elim (Bool-cases (not env.has_cache_pusher)) [
    | inl e ↦ (
      w,
      rw (push_to_cache, e) refl,
      record { stored = refl; pushed = inl (not-true env.has_cache_pusher e, refl) },
    )
    | inr e ↦
        let (b, eb) = encode_chunk-total c a.chunk_span en in
        by_result b eb e (new_iter_gen c.series.t0 (archive_span a.key.archive) b) refl
  ]
    where
      pushed_gen :
          (b : List ℕ) (r : IterGen.Result)
          → new_iter_gen c.series.t0 (archive_span a.key.archive) b ≡ r
          → w.pushed ++ (a.key, gen_or_empty r) ∷ []
            ≡ w.pushed
              ++ (a.key, gen_or_empty (new_iter_gen c.series.t0 (archive_span a.key.archive) b))
                ∷ []
      pushed_gen b r f = ap (λ g. w.pushed ++ (a.key, gen_or_empty g) ∷ []) (sym f)

      by_result :
          (b : List ℕ)
          → encode_chunk c a.chunk_span ≡ some b
          → not env.has_cache_pusher ≡ false
          → (r : IterGen.Result) → new_iter_gen c.series.t0 (archive_span a.key.archive) b ≡ r
          → (w' : World) × (push_to_cache env a c w ≡ some w') × Told env a c w w'
      by_result b eb e (IterGen.ok gen) f = (
        record w { pushed = w.pushed ++ (a.key, gen) ∷ [] },
        rw (push_to_cache, e, eb, ◌>>=◌, f) refl,
        record {
          stored = refl;
          pushed = inr (not-false env.has_cache_pusher e, b, eb, pushed_gen b (IterGen.ok gen) f);
        },
      )
      by_result b eb e (IterGen.err x) f = (
        record w {
          pushed = w.pushed ++ (a.key, record { t0 = 0; interval_hint = 0; b = [] }) ∷ [];
        },
        rw (push_to_cache, e, eb, ◌>>=◌, f) refl,
        record {
          stored = refl;
          pushed = inr (not-false env.has_cache_pusher e, b, eb, pushed_gen b (IterGen.err x) f);
        },
      )

  persist-Saved :
      (pos : ℕ) (c : Chunk) (w : World)
      → get_elem? a.chunks pos ≡ some c
      → pos < length a.chunks
      → (a' : AggMetric Agg) × (w' : World) × (persist env a pos w ≡ some (a', w'))
        × (a'.chunks ≡ a.chunks)
        × Saved env a pos c w a' w'
  persist-Saved pos c w e lt = elim (persist-Persisted env a pos c w en e lt) [
    | inl (le, run) ↦ (a, w, run, refl, inl (le, refl, refl))
    | inr (gt, (a', w', run, p)) ↦
        (a', w', run, ap (λ (m : AggMetric Agg). m.chunks) p.metric, inr (gt, p))
  ]

-- Closing with the choice between primary and secondary made.
close-by :
    {Agg : Type 0} (env : Env) (a : AggMetric Agg) (pos : ℕ) (c : Chunk) (w w1 : World)
    (primary : Bool)
    → env.is_primary ≡ primary
    → push_to_cache env (with_finished a pos c) (finish c) w ≡ some w1
    → close env a pos c w ≡ (
        if primary
        then persist env (with_finished a pos c) pos w1
        else some (with_finished a pos c, w1))
unfolding close
close-by env a pos c w w1 primary e cached =
    let b = with_finished a pos c in
    ap
      (λ (r : Option World).
        r >>= λ w'. if env.is_primary then persist env b pos w' else some (b, w'))
      cached
    ∙ ap (λ (p : Bool). if p then persist env b pos w1 else some (b, w1)) e

-- Closing the chunk at a position of the ring never panics and always returns, for a span that has a
-- code. It leaves the ring with that chunk finished and every other as it was. Exactly when there is
-- a cache, it is told, under the metric's key, of what `NewIterGen` makes of the finished chunk as it
-- is encoded. Then a primary node persists the finished chunk, unless it does not start behind the
-- last save; on any other node nothing is queued for the store and the last save stays.
pub close-Closed :
    {Agg : Type 0} (env : Env) (a : AggMetric Agg) (pos : ℕ) (c : Chunk) (w : World)
    → Encodes a.chunk_span
    → pos < length a.chunks
    → (a' : AggMetric Agg) × (w' : World) × (close env a pos c w ≡ some (a', w'))
      × Closed env a pos c w a' w'
close-Closed env a pos c w en lt =
    let b = with_finished a pos c in
    let size = length-set a.chunks pos (finish c) in
    let (w1, cached, told) = push_to_cache-total env b en (finish c) w in
    let (a', w', run, chunks, saved) =
      persist-Saved env b en pos (finish c) w1 (get_elem?-set_self a.chunks pos (finish c) lt)
        (omega (arith, lt, size)) in
    elim (Bool-cases env.is_primary) [
      | inl e ↦ (
        a',
        w',
        close-by env a pos c w w1 true e cached ∙ run,
        record {
          chunks = chunks;
          told = w1;
          stored = told.stored;
          pushed = told.pushed;
          saved = inl (e, saved);
        },
      )
      | inr e ↦ (
        b,
        w1,
        close-by env a pos c w w1 false e cached,
        record {
          chunks = refl;
          told = w1;
          stored = told.stored;
          pushed = told.pushed;
          saved = inr (e, refl, refl);
        },
      )
    ]
