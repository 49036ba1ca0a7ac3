-- ===== src/Mdata/Construct/Stored.antt =====
-- Which series a new metric has for its aggregations.
use metrictank.Common.{
  ℕ, ◌^◌, ◌-◌, ◌≡◌, refl, ◌∙◌, subst, Bool, true, false, ◌||◌, List, [], ◌∷◌, Option, none, some,
  leb, ◌==◌, if◌then◌else◌, inl, inr, Bool-cases,
}
use metrictank.Schema.{AmKey}
use metrictank.Schema.Archive
use metrictank.Conf.Retention.{Retention}
use metrictank.Conf.Rules
use metrictank.Consolidation.{Consolidator}
use metrictank.Consolidation
use metrictank.Mdata.Float.{FloatOps}
use metrictank.Mdata.Aggregation.{new_aggregation}
use metrictank.Mdata.AggMetric.{AggMetric}
use metrictank.Mdata.AggMetric.Read.{Reply, get, get_chunks}
use metrictank.Mdata.AggMetric.Read
use metrictank.Mdata.Aggregator.{Aggregator, Series}
use metrictank.Mdata.Construct.{
  Setup, new_raw, if_nil, span_of, new_series, add_method, add_methods, new_aggregator,
  new_aggregators, new_agg_metric, AggReply, ok, err, no_archive, needs_sum_and_cnt,
  unknown_consolidator, not_configured, unknown_agg_span, get_series, get_of, get_from,
  get_aggregated,
}

-- The aggregations that a method of the configuration calls for.
abbrev pub provides : Rules.Method → Consolidator → Bool
provides Rules.avg Consolidation.sum = true
provides Rules.avg Consolidation.cnt = true
provides Rules.sum Consolidation.sum = true
provides Rules.lst Consolidation.lst = true
provides Rules.max Consolidation.max = true
provides Rules.min Consolidation.min = true
provides m c = false

abbrev pub is_wanted : List Rules.Method → Consolidator → Bool
is_wanted [] c = false
is_wanted (m ∷ ms) c = provides m c || is_wanted ms c

-- The reply of a series that has no data.
abbrev pub no_data : ℕ → ℕ → Reply
no_data from to =
    if leb to from
    then Read.invalid_range
    else Read.ok (record { points = []; iters = []; oldest = 2 ^ 31 - 1 })

abbrev pub if_held : Bool → ℕ → ℕ → AggReply
if_held b from to = if b then ok (no_data from to) else err not_configured

-- What `GetAggregated` should say for an aggregation, `w` of which are kept.
abbrev pub answer : (Consolidator → Bool) → Consolidator → ℕ → ℕ → AggReply
answer w Consolidation.no_consolidation from to = err no_archive
answer w Consolidation.avg from to = err needs_sum_and_cnt
answer w Consolidation.cnt from to = if_held (w Consolidation.cnt) from to
answer w Consolidation.lst from to = if_held (w Consolidation.lst) from to
answer w Consolidation.min from to = if_held (w Consolidation.min) from to
answer w Consolidation.max from to = if_held (w Consolidation.max) from to
answer w Consolidation.sum from to = if_held (w Consolidation.sum) from to
answer w c from to = err unknown_consolidator

abbrev pub has_span : List Retention → ℕ → Bool
has_span [] span = false
has_span (ret ∷ rets) span = (span_of ret == span) || has_span rets span

-- Nothing is kept.
abbrev nothing : Consolidator → Bool
nothing c = false

-- A series is there if it is to be kept, and has no data.
data Slot : Option Series → Bool → Type 0 where
  empty : Slot none false
  held :
      (m : Series) → ((from to : ℕ) → get m from to ≡ some (no_data from to)) → Slot (some m) true

record Slots (g : Aggregator) (w : Consolidator → Bool) : Type 0 where
  sum_slot : Slot g.sum_metric (w Consolidation.sum)
  cnt_slot : Slot g.cnt_metric (w Consolidation.cnt)
  lst_slot : Slot g.lst_metric (w Consolidation.lst)
  max_slot : Slot g.max_metric (w Consolidation.max)
  min_slot : Slot g.min_metric (w Consolidation.min)

Slots-ext :
    (g : Aggregator) (v w : Consolidator → Bool)
    → ((c : Consolidator) → v c ≡ w c)
    → Slots g v
    → Slots g w
Slots-ext g v w e h = record {
  sum_slot = subst (Slot g.sum_metric) (e Consolidation.sum) h.sum_slot;
  cnt_slot = subst (Slot g.cnt_metric) (e Consolidation.cnt) h.cnt_slot;
  lst_slot = subst (Slot g.lst_metric) (e Consolidation.lst) h.lst_slot;
  max_slot = subst (Slot g.max_metric) (e Consolidation.max) h.max_slot;
  min_slot = subst (Slot g.min_metric) (e Consolidation.min) h.min_slot;
}

swap : (a b c : Bool) → (b || (a || c)) ≡ ((a || b) || c)
swap false b c = refl
swap true false c = refl
swap true true c = refl

or-false : (a : Bool) → (a || false) ≡ a
or-false false = refl
or-false true = refl

module _ (s : Setup) (key : AmKey) (ret : Retention) where
  new_series-no_data :
      (m : Archive.Method) (from to : ℕ)
      → get (new_series s key ret m) from to ≡ some (no_data from to)
  unfolding new_series new_raw get get_chunks
  new_series-no_data m from to = elim (Bool-cases (leb to from)) [
    | inl e ↦ rw e refl
    | inr e ↦ rw e refl
  ]

  fill_slot :
      (m : Archive.Method) (o : Option Series) (b : Bool)
      → Slot o b
      → Slot (if_nil o (new_series s key ret m)) true
  fill_slot m none false empty = held (new_series s key ret m) (new_series-no_data m)
  fill_slot m none true bad = elim bad [ ]
  fill_slot m (some _) false bad = elim bad [ ]
  fill_slot m (some _) true (held x h) = held x h

  add_method-Slots :
      (m : Rules.Method) (g : Aggregator) (w : Consolidator → Bool)
      → Slots g w
      → Slots (add_method s key ret m g) (λ c. provides m c || w c)
  unfolding add_method
  add_method-Slots Rules.avg g w h = record {
    sum_slot = fill_slot Archive.sum g.sum_metric _ h.sum_slot;
    cnt_slot = fill_slot Archive.cnt g.cnt_metric _ h.cnt_slot;
    lst_slot = h.lst_slot;
    max_slot = h.max_slot;
    min_slot = h.min_slot;
  }
  add_method-Slots Rules.sum g w h = record {
    sum_slot = fill_slot Archive.sum g.sum_metric _ h.sum_slot;
    cnt_slot = h.cnt_slot;
    lst_slot = h.lst_slot;
    max_slot = h.max_slot;
    min_slot = h.min_slot;
  }
  add_method-Slots Rules.lst g w h = record {
    sum_slot = h.sum_slot;
    cnt_slot = h.cnt_slot;
    lst_slot = fill_slot Archive.lst g.lst_metric _ h.lst_slot;
    max_slot = h.max_slot;
    min_slot = h.min_slot;
  }
  add_method-Slots Rules.max g w h = record {
    sum_slot = h.sum_slot;
    cnt_slot = h.cnt_slot;
    lst_slot = h.lst_slot;
    max_slot = fill_slot Archive.max g.max_metric _ h.max_slot;
    min_slot = h.min_slot;
  }
  add_method-Slots Rules.min g w h = record {
    sum_slot = h.sum_slot;
    cnt_slot = h.cnt_slot;
    lst_slot = h.lst_slot;
    max_slot = h.max_slot;
    min_slot = fill_slot Archive.min g.min_metric _ h.min_slot;
  }

  add_methods-Slots :
      (ms : List Rules.Method) (g : Aggregator) (w : Consolidator → Bool)
      → Slots g w
      → Slots (add_methods s key ret ms g) (λ c. is_wanted ms c || w c)
  unfolding add_methods
  add_methods-Slots [] g w h = h
  add_methods-Slots (m ∷ ms) g w h =
      Slots-ext (add_methods s key ret ms (add_method s key ret m g))
        (λ c. is_wanted ms c || (provides m c || w c))
        (λ c. (provides m c || is_wanted ms c) || w c)
        (λ c. swap (provides m c) (is_wanted ms c) (w c))
        (add_methods-Slots ms _ _ (add_method-Slots m g w h))

  add_method_span : (m : Rules.Method) (g : Aggregator) → (add_method s key ret m g).span ≡ g.span
  unfolding add_method
  add_method_span Rules.avg g = refl
  add_method_span Rules.sum g = refl
  add_method_span Rules.lst g = refl
  add_method_span Rules.max g = refl
  add_method_span Rules.min g = refl

  add_methods_span :
      (ms : List Rules.Method) (g : Aggregator) → (add_methods s key ret ms g).span ≡ g.span
  unfolding add_methods
  add_methods_span [] g = refl
  add_methods_span (m ∷ ms) g = add_methods_span ms (add_method s key ret m g) ∙ add_method_span m g

get_series-if_held :
    (o : Option Series) (b : Bool) (from to : ℕ)
    → Slot o b
    → get_series o from to ≡ some (if_held b from to)
unfolding get_series
get_series-if_held none false from to empty = refl
get_series-if_held none true from to bad = elim bad [ ]
get_series-if_held (some _) false from to bad = elim bad [ ]
get_series-if_held (some _) true from to (held m h) = rw (h from to) refl

get_of-answer :
    (g : Aggregator) (w : Consolidator → Bool)
    → Slots g w
    → (c : Consolidator) (from to : ℕ) → get_of g c from to ≡ some (answer w c from to)
unfolding get_of
get_of-answer g w h Consolidation.no_consolidation from to = refl
get_of-answer g w h Consolidation.avg from to = refl
get_of-answer g w h Consolidation.cnt from to = get_series-if_held _ _ from to h.cnt_slot
get_of-answer g w h Consolidation.lst from to = get_series-if_held _ _ from to h.lst_slot
get_of-answer g w h Consolidation.min from to = get_series-if_held _ _ from to h.min_slot
get_of-answer g w h Consolidation.max from to = get_series-if_held _ _ from to h.max_slot
get_of-answer g w h Consolidation.sum from to = get_series-if_held _ _ from to h.sum_slot
get_of-answer g w h Consolidation.mult from to = refl
get_of-answer g w h Consolidation.med from to = refl
get_of-answer g w h Consolidation.diff from to = refl
get_of-answer g w h Consolidation.std_dev from to = refl
get_of-answer g w h Consolidation.range from to = refl

module _ (s : Setup) (fl : FloatOps) (key : AmKey) (m : Rules.Method) (ms : List Rules.Method) where
  -- The aggregator before the loop over the methods.
  abbrev fresh : Retention → Aggregator
  fresh ret = record {
    span = span_of ret;
    current_boundary = 0;
    agg = new_aggregation fl;
    min_metric = none;
    max_metric = none;
    sum_metric = none;
    cnt_metric = none;
    lst_metric = none;
  }

  new_aggregator-Slots :
      (ret : Retention)
      → (g : Aggregator) × (new_aggregator s fl key ret (m ∷ ms) ≡ some g)
        × (g.span ≡ span_of ret)
        × Slots g (is_wanted (m ∷ ms))
  unfolding new_aggregator
  new_aggregator-Slots ret = (
    add_methods s key ret (m ∷ ms) (fresh ret),
    refl,
    add_methods_span s key ret (m ∷ ms) (fresh ret),
    Slots-ext (add_methods s key ret (m ∷ ms) (fresh ret)) (λ c. is_wanted (m ∷ ms) c || nothing c)
        (is_wanted (m ∷ ms)) (λ c. or-false (is_wanted (m ∷ ms) c))
        (add_methods-Slots s key ret (m ∷ ms) (fresh ret) nothing none_held),
  )
    where
      none_held : Slots (fresh ret) nothing
      none_held = record {
        sum_slot = empty;
        cnt_slot = empty;
        lst_slot = empty;
        max_slot = empty;
        min_slot = empty;
      }

  aggregators-cons :
      (ret : Retention) (rets : List Retention) (methods : List Rules.Method) (g : Aggregator)
      (gs : List Aggregator)
      → new_aggregator s fl key ret methods ≡ some g
      → new_aggregators s fl key rets methods ≡ some gs
      → new_aggregators s fl key (ret ∷ rets) methods ≡ some (g ∷ gs)
  unfolding new_aggregators
  aggregators-cons ret rets methods g gs e f = rw (e, f) refl

  -- What the aggregators of some retentions answer.
  abbrev pub all_answer : List Retention → Consolidator → ℕ → ℕ → ℕ → AggReply
  all_answer rets c span from to =
      if has_span rets span then answer (is_wanted (m ∷ ms)) c from to else err unknown_agg_span

  new_aggregators-get_from :
      (rets : List Retention) (c : Consolidator) (span from to : ℕ)
      → (gs : List Aggregator) × (new_aggregators s fl key rets (m ∷ ms) ≡ some gs)
        × (get_from gs c span from to ≡ some (all_answer rets c span from to))
  unfolding new_aggregators get_from
  new_aggregators-get_from [] c span from to = ([], refl, refl)
  new_aggregators-get_from (ret ∷ rets) c span from to =
      let (g, made, own, slots) = new_aggregator-Slots ret in
      let (gs, rest, h) = new_aggregators-get_from rets c span from to in
      (
        g ∷ gs,
        aggregators-cons ret rets (m ∷ ms) g gs made rest,
        elim (Bool-cases (span_of ret == span)) [
          | inl e ↦ rw (own, e) (get_of-answer g (is_wanted (m ∷ ms)) slots c from to)
          | inr e ↦ rw (own, e) h
        ],
      )

  -- With at least one method configured, a new metric is made with an aggregator for each retention
  -- but the first. `GetAggregated` of it refuses a span that is not of one of these, the
  -- consolidators that no archive is kept for, and those that no method calls for (`sum` and `cnt`
  -- are called for by `avg` too); of the others it finds a series, without data so far.
  pub new_agg_metric-answer :
      (raw : Retention) (rets : List Retention) (reorder_window interval : ℕ) (allow_update : Bool)
      (c : Consolidator) (span from to : ℕ)
      → (a : AggMetric Aggregator) × (new_agg_metric s fl key
            (raw ∷ rets)
            reorder_window
            interval
            (m ∷ ms)
            allow_update
          ≡ some a)
        × (get_aggregated a c span from to ≡ some (all_answer rets c span from to))
  unfolding new_agg_metric get_aggregated
  new_agg_metric-answer raw rets reorder_window interval allow_update c span from to =
      let (gs, made, h) = new_aggregators-get_from rets c span from to in
      (
        record (new_raw s key raw reorder_window interval allow_update) { aggregators = gs },
        rw made refl,
        h,
      )
