-- ===== src/Mdata/Ccache/Run.antt =====
-- Every operation of mdata/cache/ccache.go keeps its two maps in step.
use metrictank.Common.{
  ℕ, ◌≡◌, ◌⊎◌, refl, sym, ap, ◌∙◌, inl, inr, ◌&&◌, List, [], ◌∷◌, ◌++◌, Option, none, some, ltb,
  ◌==◌, ==_iff, if◌then◌else◌, arith, Bool-cases, Option-cases,
}
use metrictank.Common.Maps.{get, put, erase, get-erase}
use metrictank.Schema.{AmKey}
use metrictank.Chunk.IterGen.{IterGen}
use metrictank.Mdata.AggMetric.{◌>>=◌}
use metrictank.Mdata.Cache.{CacheMetric}
use metrictank.Mdata.Cache
use metrictank.Mdata.Cache.AddRange
use metrictank.Mdata.Accnt.{EvictTarget, Event, same_key}
use metrictank.Mdata.Accnt.Recent.{same_key_law}
use metrictank.Mdata.Ccache.{
  Ccache, has, set_or_none, track, update_metric, send, del_archives, last_ts, add, add_if_hot,
  add_range, del, reset, evict, Op, add_op, add_if_hot_op, add_range_op, del_op, evict_op, reset_op,
  run,
}
use metrictank.Mdata.Ccache.Keys.{is_tracked, KeepsKey, add-KeepsKey, add_range-KeepsKey, del-mkey}
use metrictank.Mdata.Ccache.Consistent.{
  is_some, IsConsistent, none-some, replaced, inserted, removed,
}

evict-IsConsistent : (c : Ccache) → IsConsistent c → (t : EvictTarget) → IsConsistent (evict c t)
unfolding evict
evict-IsConsistent c ok t = elim (Option-cases (get same_key t.metric c.metric_cache)) [
  | inl e ↦ rw (evict, e) ok
  | inr (m, e) ↦ elim (Bool-cases ((Cache.del m t.ts).1 == 0)) [
    | inl z ↦ rw (evict, e, z) (removed c ok t.metric m.mkey (ok.own_key t.metric m e))
    | inr nz ↦
        rw (evict, e, nz) (replaced c ok t.metric m (Cache.del m t.ts).0 e (del-mkey m t.ts) c.sent)
  ]
]

-- The metrics of some archives of a raw key are gone, and nothing else.
get-del_archives :
    (raw : ℕ) (archs : List ℕ) (c : Ccache) (k : AmKey)
    → (get same_key k (del_archives raw archs c).metric_cache
        ≡ (if raw == k.mkey && has k.archive archs then none else get same_key k c.metric_cache))
      × ((del_archives raw archs c).metric_raw_keys ≡ c.metric_raw_keys)
unfolding del_archives has
get-del_archives raw [] c k = (ground arith, refl)
get-del_archives raw (a ∷ as') c k =
    let j : AmKey = record { mkey = raw; archive = a } in
    let (e, same) = get-del_archives raw as' _ k in
    (e ∙ rw (get-erase same_key same_key_law k j c.metric_cache) (ground arith), same)

del-IsConsistent : (c : Ccache) (raw : ℕ) → IsConsistent c → IsConsistent (del c raw).0
unfolding del has
del-IsConsistent c raw ok = elim (Option-cases (get ◌==◌ raw c.metric_raw_keys)) [
  | inl e ↦ rw (del, e) ok
  | inr (archs, e) ↦ rw (del, e) (record { tracked = both archs e; own_key = own archs })
]
  where
    own :
        (archs : List ℕ) (k : AmKey) (m : CacheMetric)
        → get same_key k (del_archives raw archs c).metric_cache ≡ some m
        → m.mkey ≡ k.mkey
    own archs k m e = elim (Bool-cases (raw == k.mkey && has k.archive archs)) [
      | inl s ↦ absurd (none-some (rw ((get-del_archives raw archs c k).0, s) at e))
      | inr d ↦ ok.own_key k m (rw ((get-del_archives raw archs c k).0, d) at e)
    ]

    both :
        (archs : List ℕ)
        → get ◌==◌ raw c.metric_raw_keys ≡ some archs
        → (k : AmKey)
        → is_some (get same_key k (del_archives raw archs c).metric_cache)
          ≡ is_tracked k (erase ◌==◌ raw (del_archives raw archs c).metric_raw_keys)
    both archs e k =
        let (g, same) = get-del_archives raw archs c k in
        rw (g, same, get-erase ◌==◌ ==_iff k.mkey raw c.metric_raw_keys)
          (elim (Bool-cases (raw == k.mkey)) [
            | inr d ↦ rw d (ok.tracked k)
            | inl s ↦ elim (Bool-cases (has k.archive archs)) [
              | inl h ↦ rw (s, h) refl
              | inr h ↦
                  let r : raw ≡ k.mkey = ground arith in
                  let noted : get ◌==◌ k.mkey c.metric_raw_keys ≡ some archs =
                    ap (λ t. get ◌==◌ t c.metric_raw_keys) (sym r) ∙ e in
                  rw (s, h) (ok.tracked k ∙ ap (λ o. has k.archive (set_or_none o)) noted ∙ h)
            ]
          ])

-- The outcome of an operation that may panic in the cache of a metric.
abbrev pub Fine : Option Ccache → Type 0
Fine none = Unit
Fine (some c') = IsConsistent c'

update_metric-Fine :
    (c : Ccache) (k : AmKey) (f : CacheMetric → Option CacheMetric) (e : Event)
    → IsConsistent c
    → ((m : CacheMetric) → KeepsKey m (f m))
    → Fine (update_metric c k f >>= λ c'. some (send c' e))
unfolding update_metric Cache.new
update_metric-Fine c k f e ok keeps = elim (Option-cases (get same_key k c.metric_cache)) [
  | inl absent ↦ rw (absent, ◌>>=◌) (fresh (f (Cache.new k.mkey)) (keeps (Cache.new k.mkey)))
  | inr (m, there) ↦ rw (there, ◌>>=◌) (again m there (f m) (keeps m))
]
  where
    fresh :
        (o : Option CacheMetric)
        → KeepsKey (Cache.new k.mkey) o
        → Fine (
            (o >>= λ m. some (record c {
              metric_cache = put same_key k m c.metric_cache;
              metric_raw_keys = track k c.metric_raw_keys;
            }))
            >>= λ c'. some (send c' e))
    fresh none h = tt
    fresh (some m) h = inserted c ok k m h (c.sent ++ e ∷ [])

    again :
        (m : CacheMetric)
        → get same_key k c.metric_cache ≡ some m
        → (o : Option CacheMetric) → KeepsKey m o
        → Fine (
            (o >>= λ m'. some (record c { metric_cache = put same_key k m' c.metric_cache }))
            >>= λ c'. some (send c' e))
    again m there none h = tt
    again m there (some m') h = replaced c ok k m m' there h (c.sent ++ e ∷ [])

add_if_hot-Fine :
    (c : Ccache) (k : AmKey) (prev : ℕ) (g : IterGen)
    → IsConsistent c
    → Fine (add_if_hot c k prev g)
unfolding add_if_hot
add_if_hot-Fine c k prev g ok = elim (Option-cases (get same_key k c.metric_cache)) [
  | inl absent ↦ rw (add_if_hot, absent) ok
  | inr (m, there) ↦ elim (Option-cases (last_ts m)) [
    | inl e ↦ rw (add_if_hot, there, e, ◌>>=◌) tt
    | inr (last, e) ↦ elim (Bool-cases (ltb last g.t0)) [
      | inl cold ↦ rw (add_if_hot, there, e, ◌>>=◌, cold) ok
      | inr hot ↦
          rw (add_if_hot, there, e, ◌>>=◌, hot)
            (go m there (Cache.add m prev g) (add-KeepsKey m prev g))
    ]
  ]
]
  where
    go :
        (m : CacheMetric)
        → get same_key k c.metric_cache ≡ some m
        → (o : Option CacheMetric) → KeepsKey m o
        → Fine (o >>= λ m'. some (record c { metric_cache = put same_key k m' c.metric_cache }))
    go m there none h = tt
    go m there (some m') h = replaced c ok k m m' there h c.sent

-- An operation that adds chunks, and so may panic in the cache of a metric.
abbrev pub Adds : Op → Type 0
Adds (add_op k prev g) = Unit
Adds (add_if_hot_op k prev g) = Unit
Adds (add_range_op k prev gs) = Unit
Adds op = ⊥

Fine-Adds :
    (o : Option Ccache) (op : Op)
    → Adds op
    → Fine o
    → ((o ≡ none) × Adds op) ⊎ ((c' : Ccache) × (o ≡ some c') × IsConsistent c')
Fine-Adds none op a h = inl (refl, a)
Fine-Adds (some c') op a h = inr (c', refl, h)

-- Whatever the operation, a cache whose two maps are in step is left with its maps in step: a metric
-- is cached exactly when its archive is noted under its raw key, and knows its raw key. Only an
-- operation that adds chunks may panic instead.
pub run-IsConsistent :
    (c : Ccache) (op : Op)
    → IsConsistent c
    → ((run c op ≡ none) × Adds op) ⊎ ((c' : Ccache) × (run c op ≡ some c') × IsConsistent c')
unfolding run add add_range reset get has
run-IsConsistent c (add_op k prev g) ok =
    Fine-Adds (add c k prev g) (add_op k prev g) tt
      (update_metric-Fine c k (λ m. Cache.add m prev g) _ ok (λ m. add-KeepsKey m prev g))
run-IsConsistent c (add_if_hot_op k prev g) ok =
    Fine-Adds (add_if_hot c k prev g) (add_if_hot_op k prev g) tt (add_if_hot-Fine c k prev g ok)
run-IsConsistent c (add_range_op k prev []) ok = inr (c, refl, ok)
run-IsConsistent c (add_range_op k prev (g ∷ gs)) ok =
    Fine-Adds (add_range c k prev (g ∷ gs)) (add_range_op k prev (g ∷ gs)) tt (
      update_metric-Fine c k (λ m. AddRange.add_range m prev (g ∷ gs)) _ ok
        (λ m. add_range-KeepsKey m prev (g ∷ gs)))
run-IsConsistent c (del_op raw) ok = inr ((del c raw).0, refl, del-IsConsistent c raw ok)
run-IsConsistent c (evict_op t) ok = inr (evict c t, refl, evict-IsConsistent c ok t)
run-IsConsistent c reset_op ok = inr ((reset c).0, refl, reset-IsConsistent)
  where
    reset-IsConsistent : IsConsistent (reset c).0
    reset-IsConsistent = record { tracked = λ k. refl; own_key = λ k m e. absurd (none-some e) }
