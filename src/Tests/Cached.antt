-- ===== src/Tests/Cached.antt =====
-- mdata/cache/ccache_metric.go on concrete values.
use metrictank.Common.{
  ℕ, ◌≡◌, ◌⊎◌, refl, true, false, [], ◌∷◌, some, none, ◌==◌, if◌then◌else◌, length, inl, inr, subst,
  Bool-cases,
}
use mathlib.Core.Option.{some-injective, none-ne-some}
use metrictank.Chunk.IterGen.{IterGen, gen_span}
use metrictank.Mdata.Cache.{CacheMetric, is_cached, seek_asc, add, del}
use metrictank.Mdata.Cache.View.{lookup, Keyed, HasSpan, Spanned}
use metrictank.Mdata.Cache.Add.{add-lookup}
use metrictank.Mdata.Cache.Del.{del-lookup}

-- Chunks of ten minutes.
abbrev itgen_600 : IterGen
itgen_600 = record { t0 = 600; interval_hint = 0; b = 2 ∷ 11 ∷ 1 ∷ [] }

abbrev itgen_1200 : IterGen
itgen_1200 = record { t0 = 1200; interval_hint = 0; b = 2 ∷ 11 ∷ 2 ∷ [] }

abbrev one_chunk : CacheMetric
one_chunk = record {
  chunks = record { ts = 600; prev = 0; next = 0; itgen = itgen_600 } ∷ [];
  keys = 600 ∷ [];
  mkey = 1;
}

one_chunk-Keyed : Keyed one_chunk.chunks one_chunk.keys
unfolding is_cached
one_chunk-Keyed = (refl, tt)

one_chunk-Spanned : Spanned one_chunk.chunks
unfolding lookup gen_span
one_chunk-Spanned t g e = elim (Bool-cases (600 == t)) [
  | inl s ↦
      let same : itgen_600 ≡ g = some-injective itgen_600 g (rw s at e) in
      subst HasSpan same (600, refl)
  | inr d ↦ absurd (none-ne-some g (rw d at e))
]

add-lookup_example :
    ((is_cached 1200 one_chunk.chunks ≡ true) × (add one_chunk 0 itgen_1200 ≡ some one_chunk))
    ⊎ ((is_cached 1200 one_chunk.chunks ≡ false)
        × (gen_span itgen_1200 ≡ none)
        × (add one_chunk 0 itgen_1200 ≡ none))
    ⊎ ((is_cached 1200 one_chunk.chunks ≡ false)
        × HasSpan itgen_1200
        × (m' : CacheMetric) × (add one_chunk 0 itgen_1200 ≡ some m')
        × Keyed m'.chunks m'.keys
        × Spanned m'.chunks
        × ((t : ℕ)
            → lookup t m'.chunks
              ≡ (if 1200 == t then some itgen_1200 else lookup t one_chunk.chunks)))
add-lookup_example = add-lookup one_chunk 0 itgen_1200 one_chunk-Keyed one_chunk-Spanned

del-lookup_example :
    let (m', left) = del one_chunk 600 in
    Keyed m'.chunks m'.keys
    × (left ≡ length m'.chunks)
    × ((t : ℕ) → lookup t m'.chunks ≡ (if 600 == t then none else lookup t one_chunk.chunks))
del-lookup_example = del-lookup one_chunk 600 one_chunk-Keyed

seek_run : seek_asc one_chunk 700 ≡ some (some 600)
unfolding seek_asc gen_span
seek_run = refl
