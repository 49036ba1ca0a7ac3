-- ===== src/Mdata/Cache/Del.antt =====
-- `Del` of mdata/cache/ccache_metric.go, as the data under each timestamp afterwards.
use metrictank.Common.{
  ℕ, ◌≡◌, refl, sym, ap, ◌∙◌, inl, inr, true, List, [], ◌∷◌, map, some, none, ◌==◌, if◌then◌else◌,
  Bool-cases, Option-cases, arith, length,
}
use metrictank.Mdata.Cache.{
  CacheChunk, CacheMetric, find, is_cached, set_next, set_prev, remove, generate_keys, del,
}
use metrictank.Mdata.Cache.View.{
  lookup, is_some, is_cached-lookup, lookup-remove, lookup-set_next, lookup-set_prev, Keyed,
  Keyed-weaken, All-sort,
}

lookup-cons :
    (t : ℕ) (c : CacheChunk) (cs : List CacheChunk)
    → lookup t (c ∷ cs) ≡ (if c.ts == t then some c.itgen else lookup t cs)
unfolding lookup
lookup-cons t c cs = refl

timestamps-Keyed : (cs : List CacheChunk) → Keyed cs (map (λ (c : CacheChunk). c.ts) cs)
timestamps-Keyed [] = tt
timestamps-Keyed (c ∷ cs) = (
  is_cached-lookup c.ts (c ∷ cs) ∙ ap is_some (lookup-cons c.ts c cs) ∙ ground arith,
  Keyed-weaken cs (c ∷ cs) (map (λ (c : CacheChunk). c.ts) cs) further (timestamps-Keyed cs),
)
  where
    further : (k : ℕ) → is_cached k cs ≡ true → is_cached k (c ∷ cs) ≡ true
    further k h =
        is_cached-lookup k (c ∷ cs)
        ∙ ap is_some (lookup-cons k c cs)
        ∙ ground (arith, sym (is_cached-lookup k cs) ∙ h)

-- A timestamp whose chunk is not found holds no data.
lookup_missing : (t : ℕ) (cs : List CacheChunk) → find t cs ≡ none → lookup t cs ≡ none
unfolding find lookup
lookup_missing t [] e = refl
lookup_missing t (c ∷ cs) e = elim (Bool-cases (c.ts == t)) [
  | inl h ↦ absurd (ground arith)
  | inr h ↦ rw h (lookup_missing t cs (ground arith))
]

-- With every key cached, `Del` keeps every key cached, leaves no data under the timestamp, and
-- leaves the data under every other timestamp as it was. It returns how many chunks are left.
pub del-lookup :
    (m : CacheMetric) (ts : ℕ)
    → Keyed m.chunks m.keys
    → let (m', left) = del m ts in
      Keyed m'.chunks m'.keys
      × (left ≡ length m'.chunks)
      × ((t : ℕ) → lookup t m'.chunks ≡ (if ts == t then none else lookup t m.chunks))
unfolding del generate_keys
del-lookup m ts keyed = elim (Option-cases (find ts m.chunks)) [
  | inl e ↦ rw (del, e) (keyed, refl, λ t. missing e t)
  | inr (c, e) ↦
      let unlinked = if c.prev == 0 then m.chunks else set_next c.prev 0 m.chunks in
      let alone = if c.next == 0 then unlinked else set_prev c.next 0 unlinked in
      rw (del, e)
        (
          All-sort (λ k. is_cached k (remove ts alone) ≡ true)
              (map (λ (c : CacheChunk). c.ts) (remove ts alone))
              (timestamps-Keyed (remove ts alone)),
          refl,
          λ t. lookup-remove t ts alone ∙ ap (λ d. if ts == t then none else d) (same c t),
        )
]
  where
    missing :
        find ts m.chunks ≡ none
        → (t : ℕ) → lookup t m.chunks ≡ (if ts == t then none else lookup t m.chunks)
    missing e t = ground (arith, lookup_missing t m.chunks)

    same :
        (c : CacheChunk) (t : ℕ)
        → let unlinked = if c.prev == 0 then m.chunks else set_next c.prev 0 m.chunks in
          lookup t (if c.next == 0 then unlinked else set_prev c.next 0 unlinked)
          ≡ lookup t m.chunks
    same c t =
        let unlinked = if c.prev == 0 then m.chunks else set_next c.prev 0 m.chunks in
        ground (arith, lookup-set_next t c.prev 0 m.chunks, lookup-set_prev t c.next 0 unlinked)
