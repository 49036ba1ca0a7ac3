-- ===== src/Mdata/Ccache/Consistent.antt =====
-- The two maps of mdata/cache/ccache.go in step, and changes of one metric that keep them so.
use metrictank.Common.{
  ℕ, ◌≡◌, refl, sym, ap, ◌∙◌, inl, inr, Bool, true, false, List, Option, none, some, Bool-cases,
  subst,
}
use metrictank.Common.Maps.{get, put, erase, get-put, get-erase}
use metrictank.Schema.{AmKey}
use metrictank.Mdata.Cache.{CacheMetric}
use metrictank.Mdata.Accnt.{Event, same_key}
use metrictank.Mdata.Accnt.Recent.{same_key_law}
use metrictank.Mdata.Ccache.{Ccache, new_ccache, has, track, untrack}
use metrictank.Mdata.Ccache.Keys.{is_tracked, is_tracked-track, is_tracked-untrack}

abbrev pub is_some : Option CacheMetric → Bool
is_some none = false
is_some (some m) = true

-- A metric is cached exactly when its archive is noted under its raw key, and knows its raw key.
pub record IsConsistent (c : Ccache) : Type 0 where
  pub tracked :
      (k : AmKey) → is_some (get same_key k c.metric_cache) ≡ is_tracked k c.metric_raw_keys
  pub own_key :
      (k : AmKey) (m : CacheMetric) → get same_key k c.metric_cache ≡ some m → m.mkey ≡ k.mkey

pub new_ccache-IsConsistent : IsConsistent new_ccache
unfolding new_ccache get has
new_ccache-IsConsistent = record { tracked = λ k. refl; own_key = λ k m e. absurd (no e) }
  where
    no : {m : CacheMetric} → none ≡ some m → ⊥
    no e = cc

some_injective : {a b : CacheMetric} → some a ≡ some b → a ≡ b
some_injective e = cc

pub none-some : {a : CacheMetric} → none ≡ some a → ⊥
none-some e = cc

module _ (c : Ccache) (ok : IsConsistent c) where
  put_own :
      (j : AmKey) (x : CacheMetric)
      → x.mkey ≡ j.mkey
      → (k : AmKey) (m : CacheMetric) → get same_key k (put same_key j x c.metric_cache) ≡ some m
      → m.mkey ≡ k.mkey
  put_own j x own k m e = elim (Bool-cases (same_key j k)) [
    | inl s ↦
        let j_k : j ≡ k = (same_key_law j k).0 s in
        let x_m : x ≡ m =
          some_injective (rw (get-put same_key same_key_law k j x c.metric_cache, s) at e) in
        ap (λ (m : CacheMetric). m.mkey) (sym x_m) ∙ own ∙ ap (λ (k : AmKey). k.mkey) j_k
    | inr d ↦ ok.own_key k m (rw (get-put same_key same_key_law k j x c.metric_cache, d) at e)
  ]

  erase_own :
      (j k : AmKey) (m : CacheMetric)
      → get same_key k (erase same_key j c.metric_cache) ≡ some m
      → m.mkey ≡ k.mkey
  erase_own j k m e = elim (Bool-cases (same_key j k)) [
    | inl s ↦ absurd (none-some (rw (get-erase same_key same_key_law k j c.metric_cache, s) at e))
    | inr d ↦ ok.own_key k m (rw (get-erase same_key same_key_law k j c.metric_cache, d) at e)
  ]

  -- A metric that was cached is written again.
  replace_tracked :
      (j : AmKey) (old x : CacheMetric)
      → get same_key j c.metric_cache ≡ some old
      → (k : AmKey)
      → is_some (get same_key k (put same_key j x c.metric_cache)) ≡ is_tracked k c.metric_raw_keys
  replace_tracked j old x was k = elim (Bool-cases (same_key j k)) [
    | inl s ↦
        let j_k : j ≡ k = (same_key_law j k).0 s in
        rw (get-put same_key same_key_law k j x c.metric_cache, s)
          (sym (ap is_some was) ∙ ok.tracked j ∙ ap (λ t. is_tracked t c.metric_raw_keys) j_k)
    | inr d ↦ rw (get-put same_key same_key_law k j x c.metric_cache, d) (ok.tracked k)
  ]

  pub replaced :
      (j : AmKey) (old x : CacheMetric)
      → get same_key j c.metric_cache ≡ some old
      → x.mkey ≡ old.mkey
      → (sent : List Event)
      → IsConsistent (record c { metric_cache = put same_key j x c.metric_cache; sent = sent })
  replaced j old x was same sent = record {
    tracked = replace_tracked j old x was;
    own_key = put_own j x (same ∙ ok.own_key j old was);
  }

  -- A metric that was not cached is written, and noted.
  pub inserted :
      (j : AmKey) (x : CacheMetric)
      → x.mkey ≡ j.mkey
      → (sent : List Event)
      → IsConsistent (record c {
        metric_cache = put same_key j x c.metric_cache;
        metric_raw_keys = track j c.metric_raw_keys;
        sent = sent;
      })
  inserted j x own sent = record { tracked = both; own_key = put_own j x own }
    where
      both :
          (k : AmKey)
          → is_some (get same_key k (put same_key j x c.metric_cache))
            ≡ is_tracked k (track j c.metric_raw_keys)
      both k = elim (Bool-cases (same_key j k)) [
        | inl s ↦
            rw
              (
                get-put same_key same_key_law k j x c.metric_cache,
                is_tracked-track k j c.metric_raw_keys,
                s,
              )
              refl
        | inr d ↦
            rw
              (
                get-put same_key same_key_law k j x c.metric_cache,
                is_tracked-track k j c.metric_raw_keys,
                d,
              )
              (ok.tracked k)
      ]

  -- A metric is dropped, and its archive is no longer noted.
  pub removed :
      (j : AmKey) (raw : ℕ)
      → raw ≡ j.mkey
      → IsConsistent (record c {
        metric_cache = erase same_key j c.metric_cache;
        metric_raw_keys = untrack raw j.archive c.metric_raw_keys;
      })
  removed j raw own =
      subst
        (λ r. IsConsistent (record c {
          metric_cache = erase same_key j c.metric_cache;
          metric_raw_keys = untrack r j.archive c.metric_raw_keys;
        }))
        (sym own) (record { tracked = both; own_key = erase_own j })
    where
      both :
          (k : AmKey)
          → is_some (get same_key k (erase same_key j c.metric_cache))
            ≡ is_tracked k (untrack j.mkey j.archive c.metric_raw_keys)
      both k = elim (Bool-cases (same_key j k)) [
        | inl s ↦
            rw
              (
                get-erase same_key same_key_law k j c.metric_cache,
                is_tracked-untrack k j c.metric_raw_keys,
                s,
              )
              refl
        | inr d ↦
            rw
              (
                get-erase same_key same_key_law k j c.metric_cache,
                is_tracked-untrack k j c.metric_raw_keys,
                d,
              )
              (ok.tracked k)
      ]
