-- ===== src/Mdata/AggMetrics/Created.antt =====
-- `GetOrCreate` and `GC` of mdata/aggmetrics.go as changes of a map from keys to metrics.
use metrictank.Common.{
  ℕ, ◌≡◌, refl, sym, ap, ◌∙◌, Bool, true, false, ◌&&◌, List, Option, none, some, ◌==◌,
  if◌then◌else◌, inl, inr, Bool-cases, ==_iff, and_true, ap₂,
}
use metrictank.Common.Maps.{get, put, erase, get-put, get-erase}
use metrictank.Mdata.World.{Env, World}
use metrictank.Mdata.Float.{FloatOps}
use metrictank.Mdata.AggMetric.{◌>>=◌}
use metrictank.Mdata.AggMetric.Write
use metrictank.Mdata.Aggregator.{agg_ops}
use metrictank.Mdata.AggMetrics.{
  MetricKey, Metric, AggMetrics, Config, same, same_mkey, or_empty, of_org, find, store, delete,
  make, create, create_if, get_or_create, get_or_create_if, gc_metric,
}

get-or_empty :
    (k : ℕ) (b : Bool) (inner : List (ℕ × Metric)) (o : Option (List (ℕ × Metric)))
    → get same k (or_empty (if b then some inner else o))
      ≡ (if b then get same k inner else get same k (or_empty o))
get-or_empty k true inner o = refl
get-or_empty k false inner o = refl

-- The map of one organisation replaced by another.
find-put :
    (ms : AggMetrics) (k : MetricKey) (inner : List (ℕ × Metric)) (j : MetricKey)
    → find (record ms { metrics = put same k.org inner ms.metrics }) j
      ≡ (if k.org == j.org then get same j.key inner else find ms j)
unfolding find
find-put ms k inner j =
    ap (λ o. get same j.key (or_empty o)) (get-put same ==_iff j.org k.org inner ms.metrics)
    ∙ get-or_empty j.key (k.org == j.org) inner (get same j.org ms.metrics)

-- A choice by organisation and then by key is one by both.
by_both :
    (b c : Bool) (found new other old : Option Metric)
    → found ≡ (if c then new else other)
    → (b ≡ true → other ≡ old)
    → (if b then found else old) ≡ (if b && c then new else old)
by_both false c found new other old e f = refl
by_both true true found new other old e f = e
by_both true false found new other old e f = e ∙ f refl

same_org :
    (ms : AggMetrics) (k j : MetricKey)
    → (k.org == j.org) ≡ true
    → get same j.key (of_org ms k.org) ≡ find ms j
unfolding find
same_org ms k j e = ap (λ org. get same j.key (of_org ms org)) ((==_iff k.org j.org).0 e)

find-store :
    (ms : AggMetrics) (k : MetricKey) (m : Metric) (j : MetricKey)
    → find (store ms k m) j ≡ (if same_mkey k j then some m else find ms j)
unfolding store
find-store ms k m j =
    find-put ms k (put same k.key m (of_org ms k.org)) j
    ∙ by_both (k.org == j.org) (k.key == j.key)
        (get same j.key (put same k.key m (of_org ms k.org))) (some m)
        (get same j.key (of_org ms k.org)) (find ms j)
        (get-put same ==_iff j.key k.key m (of_org ms k.org)) (same_org ms k j)

find-delete :
    (ms : AggMetrics) (k j : MetricKey)
    → find (delete ms k) j ≡ (if same_mkey k j then none else find ms j)
unfolding delete
find-delete ms k j =
    find-put ms k (erase same k.key (of_org ms k.org)) j
    ∙ by_both (k.org == j.org) (k.key == j.key)
        (get same j.key (erase same k.key (of_org ms k.org))) none
        (get same j.key (of_org ms k.org)) (find ms j)
        (get-erase same ==_iff j.key k.key (of_org ms k.org)) (same_org ms k j)

-- The metric that is there already, if there is one.
abbrev pub old_or : Option Metric → Metric → Metric
old_or none new = new
old_or (some m) new = m

same_mkey_eq : (k j : MetricKey) → same_mkey k j ≡ true → k ≡ j
same_mkey_eq k j e =
    let (o, i) = (and_true (k.org == j.org) (k.key == j.key)).0 e in
    let build = λ (x y : ℕ). (let k : MetricKey = record { key = x; org = y } in k) in
    ap₂ build ((==_iff k.key j.key).0 i) ((==_iff k.org j.org).0 o)

find-same : (ms : AggMetrics) (k j : MetricKey) → same_mkey k j ≡ true → find ms j ≡ find ms k
find-same ms k j e = ap (λ i. find ms i) (sym (same_mkey_eq k j e))

find_unchanged :
    (ms : AggMetrics) (k j : MetricKey) (m : Metric)
    → find ms k ≡ some m
    → find ms j ≡ (if same_mkey k j then some m else find ms j)
find_unchanged ms k j m e = elim (Bool-cases (same_mkey k j)) [
  | inl s ↦ rw s (find-same ms k j s ∙ e)
  | inr d ↦ rw d refl
]

create-again :
    (cf : Config) (ms : AggMetrics) (k : MetricKey) (m : Metric) (schema_id agg_id interval : ℕ)
    → find ms k ≡ some m
    → create cf ms k schema_id agg_id interval ≡ some (m, ms)
unfolding create create_if
create-again cf ms k m schema_id agg_id interval e =
    ap (λ o. create_if cf ms k schema_id agg_id interval o) e

same_mkey_refl : (k : MetricKey) → same_mkey k k ≡ true
same_mkey_refl k = rw ((==_iff k.org k.org).1 refl, (==_iff k.key k.key).1 refl) refl

-- What `GetOrCreate` leaves: its result, the lookup of `j` after it, and what another caller gets
-- that looked for `k` before and takes the write lock after.
abbrev pub Created :
    Config
    → AggMetrics
    → MetricKey
    → Option (Metric × AggMetrics)
    → Metric
    → MetricKey
    → ℕ
    → ℕ
    → ℕ
    → Type 0
Created cf ms k result m j schema_id agg_id interval =
    (ms' : AggMetrics) × (result ≡ some (m, ms'))
    × (find ms' j ≡ (if same_mkey k j then some m else find ms j))
    × (create cf ms' k schema_id agg_id interval ≡ some (m, ms'))

module _ (cf : Config) (ms : AggMetrics) (k : MetricKey) (schema_id agg_id interval : ℕ)
    (new : Metric) (made : make cf ms k schema_id agg_id interval ≡ some new) where
  was_there :
      (m : Metric) (j : MetricKey) (schema_id' agg_id' interval' : ℕ)
      → find ms k ≡ some m
      → Created cf ms k
          (get_or_create cf ms k schema_id agg_id interval)
          m
          j
          schema_id'
          agg_id'
          interval'
  unfolding get_or_create get_or_create_if
  was_there m j schema_id' agg_id' interval' e = (
    ms,
    ap (λ o. get_or_create_if cf ms k schema_id agg_id interval o) e,
    find_unchanged ms k j m e,
    create-again cf ms k m schema_id' agg_id' interval' e,
  )

  was_new :
      (j : MetricKey) (schema_id' agg_id' interval' : ℕ)
      → find ms k ≡ none
      → Created cf ms k
          (get_or_create cf ms k schema_id agg_id interval)
          new
          j
          schema_id'
          agg_id'
          interval'
  unfolding get_or_create get_or_create_if create create_if
  was_new j schema_id' agg_id' interval' e = (
    store ms k new,
    ap (λ o. get_or_create_if cf ms k schema_id agg_id interval o) e
        ∙ ap (λ o. create_if cf ms k schema_id agg_id interval o) e
        ∙ ap (λ o. o >>= λ m. some (m, store ms k m)) made,
    find-store ms k new j,
    create-again cf (store ms k new) k new schema_id' agg_id' interval'
        (find-store ms k new k ∙ rw (same_mkey_refl k) refl),
  )

  -- Where the metric of the key can be made, `GetOrCreate` returns the metric that is there, else the
  -- new one. A lookup then finds it under its key and what was there under any other; and a caller
  -- that takes the write lock only now, for the same key, gets the same metric and changes nothing.
  pub get_or_create-Created :
      (j : MetricKey) (schema_id' agg_id' interval' : ℕ)
      → Created cf ms k
          (get_or_create cf ms k schema_id agg_id interval)
          (old_or (find ms k) new)
          j
          schema_id'
          agg_id'
          interval'
  get_or_create-Created j schema_id' agg_id' interval' = by_old (find ms k) refl
    where
      by_old :
          (o : Option Metric)
          → find ms k ≡ o
          → Created cf ms k
              (get_or_create cf ms k schema_id agg_id interval)
              (old_or o new)
              j
              schema_id'
              agg_id'
              interval'
      by_old none e = was_new j schema_id' agg_id' interval' e
      by_old (some m) e = was_there m j schema_id' agg_id' interval' e

-- A round of the loop of `GC` over the metrics, for a metric that is there and whose own `GC`
-- returns: the lookup of its key finds nothing behind it if it is stale, and what `GC` made of it
-- otherwise; that of any other key finds what it found before.
pub gc_metric-find :
    (fl : FloatOps) (env : Env) (ms : AggMetrics) (k : MetricKey)
    (now chunk_min_ts metric_min_ts : ℕ) (w w' : World) (a a' : Metric) (points : ℕ) (stale : Bool)
    (j : MetricKey)
    → find ms k ≡ some a
    → Write.gc (agg_ops fl) env a now chunk_min_ts metric_min_ts w ≡ some (a', points, stale, w')
    → (ms' : AggMetrics) × (gc_metric fl env ms k now chunk_min_ts metric_min_ts w ≡ some (ms', w'))
      × (find ms' j ≡ (if same_mkey k j then (if stale then none else some a') else find ms j))
unfolding gc_metric
gc_metric-find fl env ms k now chunk_min_ts metric_min_ts w w' a a' points true j e f =
    (delete ms k, rw (e, f) refl, find-delete ms k j)
gc_metric-find fl env ms k now chunk_min_ts metric_min_ts w w' a a' points false j e f =
    (store ms k a', rw (e, f) refl, find-store ms k a' j)
