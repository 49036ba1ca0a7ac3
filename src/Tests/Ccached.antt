-- ===== src/Tests/Ccached.antt =====
-- mdata/cache/ccache.go on concrete values.
use metrictank.Common.{
  ◌≡◌, ◌⊎◌, refl, false, [], ◌∷◌, ◌++◌, some, none, arith, inl, inr, subst, Bool-cases, ◌==◌,
}
use mathlib.Core.Option.{some-injective, none-ne-some}
use metrictank.Schema.{AmKey}
use metrictank.Chunk.IterGen.{IterGen, gen_size, gen_span}
use metrictank.Mdata.Cache.{CacheMetric, is_cached}
use metrictank.Mdata.Cache.View.{lookup, Keyed, HasSpan, Spanned}
use metrictank.Mdata.Accnt.{same_key, add_chunk_event}
use metrictank.Common.Maps.{get}
use metrictank.Common.Maps
use metrictank.Mdata.Cache
use metrictank.Mdata.Ccache.{Ccache, new_ccache, last_ts, add, add_if_hot, add_op, run}
use metrictank.Mdata.Ccache.Consistent.{IsConsistent, new_ccache-IsConsistent}
use metrictank.Mdata.Ccache.Run.{Adds, run-IsConsistent}
use metrictank.Mdata.Ccache.Hot.{Holds, add_if_hot_unaccounted}

abbrev key : AmKey
key = record { mkey = 7; archive = 0 }

-- Chunks of ten minutes.
abbrev gen_600 : IterGen
gen_600 = record { t0 = 600; interval_hint = 0; b = 2 ∷ 11 ∷ 1 ∷ [] }

abbrev gen_1200 : IterGen
gen_1200 = record { t0 = 1200; interval_hint = 0; b = 2 ∷ 11 ∷ 2 ∷ [] }

abbrev metric : CacheMetric
metric = record {
  chunks = record { ts = 600; prev = 0; next = 0; itgen = gen_600 } ∷ [];
  keys = 600 ∷ [];
  mkey = 7;
}

abbrev cache : Ccache
cache = record { metric_cache = (key, metric) ∷ []; metric_raw_keys = (7, 0 ∷ []) ∷ []; sent = [] }

-- The cache is what `Add` makes of a new one.
add_run :
    add new_ccache key 0 gen_600
    ≡ some (record cache { sent = add_chunk_event key 600 (gen_size gen_600) ∷ [] })
unfolding add new_ccache get Cache.add Cache.new Maps.put gen_span
add_run = refl

run-IsConsistent_example :
    ((run new_ccache (add_op key 0 gen_600) ≡ none) × Adds (add_op key 0 gen_600))
    ⊎ ((c' : Ccache) × (run new_ccache (add_op key 0 gen_600) ≡ some c') × IsConsistent c')
run-IsConsistent_example =
    run-IsConsistent new_ccache (add_op key 0 gen_600) new_ccache-IsConsistent

metric-Keyed : Keyed metric.chunks metric.keys
unfolding is_cached
metric-Keyed = (refl, tt)

metric-Spanned : Spanned metric.chunks
unfolding lookup gen_span
metric-Spanned t g e = elim (Bool-cases (600 == t)) [
  | inl s ↦
      let same : gen_600 ≡ g = some-injective gen_600 g (rw s at e) in
      subst HasSpan same (600, refl)
  | inr d ↦ absurd (none-ne-some g (rw d at e))
]

gen_1200-span : gen_span gen_1200 ≡ some 600
unfolding gen_span
gen_1200-span = refl

not_cached : is_cached 1200 metric.chunks ≡ false
unfolding is_cached
not_cached = refl

last_run : last_ts metric ≡ some 1200
unfolding last_ts gen_span Cache.next_ts Cache.last_key
last_run = refl

there : get same_key key cache.metric_cache ≡ some metric
unfolding get
there = refl

add_if_hot_unaccounted_example :
    (c' : Ccache) × (c'' : Ccache) × (add_if_hot cache key 0 gen_1200 ≡ some c')
    × (add cache key 0 gen_1200 ≡ some c'')
    × Holds c' key gen_1200
    × Holds c'' key gen_1200
    × (c'.sent ≡ cache.sent)
    × (c''.sent ≡ cache.sent ++ add_chunk_event key 1200 (gen_size gen_1200) ∷ [])
add_if_hot_unaccounted_example =
    add_if_hot_unaccounted cache key 0 gen_1200 metric 1200 there metric-Keyed metric-Spanned
      (600, gen_1200-span) not_cached last_run (omega arith)
