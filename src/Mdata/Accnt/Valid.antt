-- ===== src/Mdata/Accnt/Valid.antt =====
-- The invariant of the accounting: its sizes add up, and the list has every chunk that is accounted.
use metrictank.Common.{
  ℕ, ◌+◌, ◌%◌, ◌^◌, ◌≡◌, true, false, List, [], ◌∷◌, none, ◌==◌, arith, Option-cases, inl, inr, All,
}
use metrictank.Schema.{AmKey}
use metrictank.Chunk.IterGen.{IterGen, gen_size}
use metrictank.Mdata.Accnt.Assoc.{
  lookup, delete, total_of, Distinct, total_of-delete, delete-none, Distinct-delete, Distinct-put,
  All-delete, All-absent, All-lookup, All-map_to, lookup-delete_self,
}
use metrictank.Mdata.Accnt.{
  EvictTarget, FlatAccnt, FlatAccntMet, same_key, contains, touch, touch_all, add64, add, add_range,
  metric_or_new, grown, del_met,
}
use metrictank.Mdata.Accnt.Recent.{
  same_key_law, contains-touch, contains-touch_self, contains-touch_all, contains-del_chunks,
}
use metrictank.Mdata.Accnt.Sizes.{sum_of, Added, add_chunk-Added, add_chunks-Added}

-- A chunk of a metric is in the list.
abbrev pub Listed : List EvictTarget → AmKey → ℕ × ℕ → Type 0
Listed lru metric c = contains (record { metric = metric; ts = c.0 }) lru ≡ true

pub record MetValid (lru : List EvictTarget) (e : AmKey × FlatAccntMet) : Type 0 where
  pub distinct : Distinct ◌==◌ e.1.chunks
  pub total_lem : e.1.total ≡ sum_of e.1.chunks % 2 ^ 64
  pub listed : All (Listed lru e.0) e.1.chunks

-- The size of all chunks.
abbrev pub size_of_all : List (AmKey × FlatAccntMet) → ℕ
size_of_all = total_of (λ (met : FlatAccntMet). sum_of met.chunks)

pub record IsValid (a : FlatAccnt) : Type 0 where
  pub distinct : Distinct same_key a.metrics
  pub metrics : All (MetValid a.lru) a.metrics
  pub used_lem : a.used ≡ size_of_all a.metrics % 2 ^ 64

-- Metrics stay valid while their targets stay in the list.
pub relisted :
    (l l' : List EvictTarget) (ms : List (AmKey × FlatAccntMet))
    → ((x : EvictTarget) → contains x l ≡ true → contains x l' ≡ true)
    → All (MetValid l) ms
    → All (MetValid l') ms
relisted l l' ms f = All-map_to (MetValid l) (MetValid l') ms (λ e v. record {
  distinct = v.distinct;
  total_lem = v.total_lem;
  listed = All-map_to _ _ e.1.chunks (λ c h. f (record { metric = e.0; ts = c.0 }) h) v.listed;
})

-- Those of the other metrics, where only targets of one are taken off.
pub relisted_others :
    (l l' : List EvictTarget) (metric : AmKey) (ms : List (AmKey × FlatAccntMet))
    → lookup same_key metric ms ≡ none
    → ((x : EvictTarget)
        → same_key metric x.metric ≡ false
        → contains x l ≡ true
        → contains x l' ≡ true)
    → All (MetValid l) ms
    → All (MetValid l') ms
relisted_others l l' metric ms e f h =
    All-map_to _ _ ms
      (λ m p. record {
        distinct = p.1.distinct;
        total_lem = p.1.total_lem;
        listed =
            All-map_to _ _ m.1.chunks (λ c h. f (record { metric = m.0; ts = c.0 }) p.0 h)
              p.1.listed;
      })
      (All-absent same_key same_key_law (MetValid l) metric ms e h)

-- The metric that a key has or gets, and the size of the others.
pub record Found (a : FlatAccnt) (metric : AmKey) : Type 0 where
  pub here : MetValid a.lru (metric, metric_or_new (lookup same_key metric a.metrics))
  pub size_lem :
      size_of_all a.metrics
      ≡ sum_of (metric_or_new (lookup same_key metric a.metrics)).chunks
        + size_of_all (delete same_key metric a.metrics)

pub found : (a : FlatAccnt) (metric : AmKey) → IsValid a → Found a metric
found a metric v = elim (Option-cases (lookup same_key metric a.metrics)) [
  | inl e ↦
      let same = delete-none same_key same_key_law metric a.metrics e in
      record {
        here = rw e (record { distinct = tt; total_lem = omega arith; listed = tt });
        size_lem = rw (e, same) (omega arith);
      }
  | inr (met, e) ↦ record {
    here =
        rw e (All-lookup same_key same_key_law (MetValid a.lru) metric met a.metrics v.metrics e);
    size_lem = rw e (
        total_of-delete same_key same_key_law (λ (met : FlatAccntMet). sum_of met.chunks) metric met
          a.metrics e);
  }
]

-- Chunks are added to a metric, and put in the list.
grown-IsValid :
    (a : FlatAccnt) (metric : AmKey) (lru : List EvictTarget) (added : List (ℕ × ℕ) × ℕ)
    → IsValid a
    → ((x : EvictTarget) → contains x a.lru ≡ true → contains x lru ≡ true)
    → let met = metric_or_new (lookup same_key metric a.metrics) in
      Added (Listed lru metric) met.chunks 0 added
      → IsValid (record (grown a metric met added) { lru = lru })
grown-IsValid a metric lru added v f r =
    let g = found a metric v in
    let met = metric_or_new (lookup same_key metric a.metrics) in
    let met' : FlatAccntMet = record { total = add64 met.total added.1; chunks = added.0 } in
    record {
      distinct = Distinct-put same_key same_key_law metric met' a.metrics v.distinct;
      metrics = (
        record {
          distinct = r.distinct;
          total_lem = omega (arith, r.sum_lem, g.here.total_lem);
          listed = r.all;
        },
        relisted a.lru lru (delete same_key metric a.metrics) f
            (All-delete same_key same_key_law (MetValid a.lru) metric a.metrics v.metrics),
      );
      used_lem = omega (arith, r.sum_lem, g.size_lem, v.used_lem);
    }

-- All the targets of the chunks are in the list once they are touched.
touched :
    (metric : AmKey) (cs : List IterGen) (l : List EvictTarget)
    → All (λ (c : IterGen). Listed (touch_all metric cs l) metric (c.t0, gen_size c)) cs
unfolding touch_all
touched metric [] l = tt
touched metric (c ∷ cs) l =
    let x : EvictTarget = record { metric = metric; ts = c.t0 } in
    (
      contains-touch_all x metric cs (touch x l) (contains-touch_self x l),
      touched metric cs (touch x l),
    )

-- `add` and `addRange` with the touch behind them.
pub add-IsValid :
    (a : FlatAccnt) (metric : AmKey) (ts size : ℕ)
    → IsValid a
    → let x : EvictTarget = record { metric = metric; ts = ts } in
      IsValid (record (add a metric ts size) { lru = touch x (add a metric ts size).lru })
unfolding add
add-IsValid a metric ts size v =
    let x : EvictTarget = record { metric = metric; ts = ts } in
    let lru = touch x a.lru in
    let f = λ (y : EvictTarget) (h : contains y a.lru ≡ true). contains-touch y x a.lru h in
    let g = found a metric v in
    grown-IsValid a metric lru _ v f (
      add_chunk-Added (Listed lru metric) _ ts size g.here.distinct
        (All-map_to _ _ _ (λ c h. f (record { metric = metric; ts = c.0 }) h) g.here.listed)
        (contains-touch_self x a.lru))

pub add_range-IsValid :
    (a : FlatAccnt) (metric : AmKey) (cs : List IterGen)
    → IsValid a
    → IsValid
        (record (add_range a metric cs) { lru = touch_all metric cs (add_range a metric cs).lru })
unfolding add_range
add_range-IsValid a metric cs v =
    let lru = touch_all metric cs a.lru in
    let f =
      λ (y : EvictTarget) (h : contains y a.lru ≡ true). contains-touch_all y metric cs a.lru h in
    let g = found a metric v in
    grown-IsValid a metric lru _ v f (
      add_chunks-Added (Listed lru metric) cs _ 0 g.here.distinct
        (All-map_to _ _ _ (λ c h. f (record { metric = metric; ts = c.0 }) h) g.here.listed)
        (touched metric cs a.lru))

pub del_met-IsValid : (a : FlatAccnt) (metric : AmKey) → IsValid a → IsValid (del_met a metric)
unfolding del_met
del_met-IsValid a metric v =
    let g = found a metric v in
    elim (Option-cases (lookup same_key metric a.metrics)) [
      | inl e ↦ rw (del_met, e) v
      | inr (met, e) ↦
          rw (del_met, e)
            (record {
              distinct = Distinct-delete same_key same_key_law metric a.metrics v.distinct;
              metrics =
                  relisted_others a.lru _ metric (delete same_key metric a.metrics)
                    (lookup-delete_self same_key same_key_law metric a.metrics v.distinct)
                    (λ x ne h. contains-del_chunks x metric met.chunks a.lru ne h)
                    (All-delete same_key same_key_law (MetValid a.lru) metric a.metrics v.metrics);
              used_lem =
                  let s = rw e at g.size_lem in
                  let t = rw e at g.here.total_lem in omega (arith, s, t, v.used_lem);
            })
    ]
