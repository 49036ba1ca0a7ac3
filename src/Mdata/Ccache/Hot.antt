-- ===== src/Mdata/Ccache/Hot.antt =====
-- `AddIfHot` of mdata/cache/ccache.go beside `Add`: it tells the accounting of nothing.
use metrictank.Common.{
  ℕ, ◌≤◌, ◌≡◌, refl, sym, ◌∙◌, inl, inr, true, false, [], ◌∷◌, ◌++◌, some, none, ltb, ◌==◌, arith,
}
use metrictank.Common.Maps.{get, put, get-put}
use metrictank.Schema.{AmKey}
use metrictank.Chunk.IterGen.{IterGen, gen_size}
use metrictank.Mdata.AggMetric.{◌>>=◌}
use metrictank.Mdata.Cache.{CacheMetric, is_cached}
use metrictank.Mdata.Cache.View.{lookup, Keyed, HasSpan, Spanned}
use metrictank.Mdata.Cache.Add.{add-lookup}
use metrictank.Mdata.Accnt.{add_chunk_event, same_key}
use metrictank.Mdata.Accnt.Recent.{same_key_law}
use metrictank.Mdata.Ccache.{Ccache, last_ts, update_metric, add, add_if_hot}

-- The chunk is cached under the key and its timestamp.
pub record Holds (c : Ccache) (k : AmKey) (g : IterGen) : Type 0 where
  pub metric : CacheMetric
  pub cached : get same_key k c.metric_cache ≡ some metric
  pub chunk : lookup g.t0 metric.chunks ≡ some g

true-false : true ≡ false → ⊥
true-false e = cc

some-none : {n : ℕ} → some n ≡ none → ⊥
some-none e = cc

same_self : (k : AmKey) → same_key k k ≡ true
same_self k = (same_key_law k k).1 refl

-- For a metric that is cached and has every key cached and a span for the data of every chunk, and a
-- chunk that has a span, and whose timestamp is not cached and not behind the last one of the metric:
-- `AddIfHot` and `Add` both cache the chunk, but only `Add`
-- tells the accounting, of the chunk's timestamp and size. `AddIfHot` sends it nothing.
pub add_if_hot_unaccounted :
    (c : Ccache) (k : AmKey) (prev : ℕ) (g : IterGen) (m : CacheMetric) (last : ℕ)
    → get same_key k c.metric_cache ≡ some m
    → Keyed m.chunks m.keys
    → Spanned m.chunks
    → HasSpan g
    → is_cached g.t0 m.chunks ≡ false
    → last_ts m ≡ some last
    → g.t0 ≤ last
    → (c' : Ccache) × (c'' : Ccache) × (add_if_hot c k prev g ≡ some c')
      × (add c k prev g ≡ some c'')
      × Holds c' k g
      × Holds c'' k g
      × (c'.sent ≡ c.sent)
      × (c''.sent ≡ c.sent ++ add_chunk_event k g.t0 (gen_size g) ∷ [])
unfolding add_if_hot add
add_if_hot_unaccounted c k prev g m last there keyed spanned has fresh end hot =
    elim (add-lookup m prev g keyed spanned) [
      | inl (cached, e) ↦ absurd (true-false (sym cached ∙ fresh))
      | inr (inl (absent, bad, e)) ↦ absurd (some-none (sym has.1 ∙ bad))
      | inr (inr (absent, has', m', e, keyed', spanned', found)) ↦
          let not_cold : ltb last g.t0 ≡ false = ground arith in
          let self : (g.t0 == g.t0) ≡ true = ground arith in
          let put_self : get same_key k (put same_key k m' c.metric_cache) ≡ some m' =
            get-put same_key same_key_law k k m' c.metric_cache ∙ rw (same_self k) refl in
          let chunk : lookup g.t0 m'.chunks ≡ some g = found g.t0 ∙ rw self refl in
          (
            record c { metric_cache = put same_key k m' c.metric_cache },
            record c {
              metric_cache = put same_key k m' c.metric_cache;
              sent = c.sent ++ add_chunk_event k g.t0 (gen_size g) ∷ [];
            },
            rw (add_if_hot, there, end, ◌>>=◌, not_cold, e) refl,
            rw (add, update_metric, there, ◌>>=◌, e) refl,
            record { metric = m'; cached = put_self; chunk = chunk },
            record { metric = m'; cached = put_self; chunk = chunk },
            refl,
            refl,
          )
    ]
