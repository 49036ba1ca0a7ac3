-- ===== src/Mdata/Cache/Add.antt =====
-- `Add` of mdata/cache/ccache_metric.go, as the data under each timestamp afterwards.
use metrictank.Common.{
  ℕ, ◌≡◌, ◌⊎◌, refl, sym, ap, ◌∙◌, inl, inr, true, false, reverse, some, none, ◌==◌, if◌then◌else◌,
  Bool-cases, Option-cases, subst, List, arith, All-reverse,
}
use metrictank.Common.Words.{sub32}
use mathlib.Core.Option.{some-injective}
use metrictank.Chunk.IterGen.{IterGen, gen_span}
use metrictank.Mdata.AggMetric.{◌>>=◌}
use metrictank.Mdata.Cache.{
  CacheChunk, CacheMetric, is_cached, put, seek_desc, previous, add_key, link_prev, link_next, add,
}
use metrictank.Mdata.Cache.View.{
  lookup, is_some, is_cached-lookup, lookup-put, lookup-link_prev, lookup-link_next, Keyed,
  Keyed-weaken, add_key-Keyed, HasSpan, Spanned, next_ts-none, next_ts-total, seek_down-total,
  same-cached,
}

-- The data under a timestamp may be that of a new chunk.
Spanned-put :
    (cs cs' : List CacheChunk) (ts : ℕ) (g : IterGen)
    → ((t : ℕ) → lookup t cs' ≡ (if ts == t then some g else lookup t cs))
    → HasSpan g
    → Spanned cs
    → Spanned cs'
Spanned-put cs cs' ts g e has spanned t h there = elim (Bool-cases (ts == t)) [
  | inl s ↦
      let same : g ≡ h = some-injective g h (sym (e t ∙ rw s refl) ∙ there) in
      subst HasSpan same has
  | inr d ↦ spanned t h (sym (e t ∙ rw d refl) ∙ there)
]

-- With every key cached and a span for the data of every cached chunk, `Add` keeps it so, and panics
-- exactly for a chunk that is not cached yet and that `Span` panics for, such as one without bytes. A
-- chunk whose timestamp is cached changes nothing; any other is then found under its timestamp, and
-- under every other timestamp the data is as it was.
pub add-lookup :
    (m : CacheMetric) (prev : ℕ) (itgen : IterGen)
    → Keyed m.chunks m.keys
    → Spanned m.chunks
    → ((is_cached itgen.t0 m.chunks ≡ true) × (add m prev itgen ≡ some m))
      ⊎ ((is_cached itgen.t0 m.chunks ≡ false)
          × (gen_span itgen ≡ none)
          × (add m prev itgen ≡ none))
      ⊎ ((is_cached itgen.t0 m.chunks ≡ false)
          × HasSpan itgen
          × (m' : CacheMetric) × (add m prev itgen ≡ some m')
          × Keyed m'.chunks m'.keys
          × Spanned m'.chunks
          × ((t : ℕ)
              → lookup t m'.chunks ≡ (if itgen.t0 == t then some itgen else lookup t m.chunks)))
unfolding add seek_desc
add-lookup m prev itgen keyed spanned = elim (Bool-cases (is_cached itgen.t0 m.chunks)) [
  | inl e ↦ inl (e, rw e refl)
  | inr e ↦
      let ts = itgen.t0 in
      let c : CacheChunk = record { ts = ts; prev = 0; next = 0; itgen = itgen } in
      let cs = put c m.chunks in
      let here : is_cached ts cs ≡ true =
        is_cached-lookup ts cs ∙ ap is_some (lookup-put ts c m.chunks) ∙ ground arith in
      let keyed' : Keyed cs m.keys =
        Keyed-weaken m.chunks cs m.keys
          (λ k h.
            is_cached-lookup k cs
            ∙ ap is_some (lookup-put k c m.chunks)
            ∙ kept k (sym (is_cached-lookup k m.chunks) ∙ h))
          keyed in
      let self : lookup ts cs ≡ some itgen = lookup-put ts c m.chunks ∙ ground arith in
      elim (Option-cases (gen_span itgen)) [
        | inl bad ↦
            let no_next = next_ts-none cs ts itgen self bad in
            inr (inl (e, bad, rw (e, no_next, ◌>>=◌) refl))
        | inr has ↦
            let spanned' : Spanned cs =
              Spanned-put m.chunks cs ts itgen (λ t. lookup-put t c m.chunks) has spanned in
            let (next, en) = next_ts-total cs ts spanned' here in
            let (res, er) =
              seek_down-total cs (reverse m.keys) (sub32 ts 1) spanned'
                (All-reverse (λ k. is_cached k cs ≡ true) m.keys keyed') in
            let p = previous prev res in
            let linked = link_next next ts (link_prev p ts cs) in
            let same = λ (t : ℕ).
              lookup-link_next t next ts (link_prev p ts cs) ∙ lookup-link_prev t p ts cs in
            let all = λ (k : ℕ) (h : is_cached k cs ≡ true). same-cached k cs linked (same k) ∙ h in
            inr (
              inr (
                e,
                has,
                record m { chunks = linked; keys = add_key m.keys ts },
                rw (e, en, ◌>>=◌, er) refl,
                add_key-Keyed (λ k. is_cached k linked ≡ true) m.keys ts
                    (Keyed-weaken cs linked m.keys all keyed') (all ts here),
                λ t g there. spanned' t g (sym (same t) ∙ there),
                λ t. same t ∙ lookup-put t c m.chunks,
              ))
      ]
]
  where
    kept :
        (k : ℕ)
        → is_some (lookup k m.chunks) ≡ true
        → is_some (if itgen.t0 == k then some itgen else lookup k m.chunks) ≡ true
    kept k h = elim (Bool-cases (itgen.t0 == k)) [ inl e ↦ rw e refl | inr e ↦ rw e h ]
