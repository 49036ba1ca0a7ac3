-- ===== src/Mdata/Accnt/Bounded.antt =====
-- After every event the accounted chunks fit the limit of the cache.
use metrictank.Common.{
  ℕ, zero, suc, ◌<◌, ◌≤◌, ◌≡◌, refl, ◌∙◌, true, false, List, [], ◌∷◌, some, ◌==◌, ltb, arith,
  Bool-cases, Option-cases, inl, inr, All, subst, length,
}
use metrictank.Schema.{AmKey}
use metrictank.Mdata.Accnt.Assoc.{lookup}
use metrictank.Mdata.Accnt.{
  EvictTarget, FlatAccnt, FlatAccntMet, Event, hit_chunk, hit_chunks, add_chunk_event,
  add_chunks_event, del_metric, get_total, reset_all, event_loop, same_key, contains, touch,
  touch_all, add, add_range, del_met, evict, evict_loop, handle, event_round, new_flat_accnt,
}
use metrictank.Mdata.Accnt.Recent.{contains-touch, contains-touch_all, reset-empties}
use metrictank.Mdata.Accnt.Sizes.{sum_of}
use metrictank.Mdata.Accnt.Valid.{
  Listed, MetValid, IsValid, size_of_all, relisted, add-IsValid, add_range-IsValid, del_met-IsValid,
}
use metrictank.Mdata.Accnt.Evict.{Pops-of, evict-Shrinks}

-- With an empty list nothing is accounted.
sum_zero : (k : AmKey) (chunks : List (ℕ × ℕ)) → All (Listed [] k) chunks → sum_of chunks ≡ 0
sum_zero k [] h = refl
sum_zero k (c ∷ cs) h = let bad : false ≡ true = h.0 in cc

size_zero : (ms : List (AmKey × FlatAccntMet)) → All (MetValid []) ms → size_of_all ms ≡ 0
size_zero [] h = refl
size_zero (m ∷ ms) h = omega (arith, sum_zero m.0 m.1.chunks h.0.listed, size_zero ms h.1)

used_zero : (a : FlatAccnt) → IsValid a → length a.lru ≡ 0 → a.used ≡ 0
used_zero a v e =
    let z : a.lru ≡ [] = empty a.lru e in
    let s = size_zero a.metrics (subst (λ l. All (MetValid l) a.metrics) z v.metrics) in
    omega (arith, v.used_lem, s)
  where
    empty : (l : List EvictTarget) → length l ≡ 0 → l ≡ []
    empty [] e = refl
    empty (x ∷ l) e = absurd (omega (arith, e))

-- For a valid accounting and as many rounds as the list has targets, the loop of evictions ends, with a
-- valid accounting of the same limit whose size is within the limit.
pub evict_loop-bounded :
    (n : ℕ) (a : FlatAccnt)
    → IsValid a
    → length a.lru ≤ n
    → (a' : FlatAccnt) × (evict_loop n a ≡ some a')
      × IsValid a'
      × (a'.max_size ≡ a.max_size)
      × (a'.used ≤ a'.max_size)
unfolding evict_loop
evict_loop-bounded zero a v le =
    let z = used_zero a v (omega (arith, le)) in
    let fits : ltb a.max_size a.used ≡ false = ground arith in
    (a, rw (evict_loop, fits) refl, v, refl, omega (arith, z))
evict_loop-bounded (suc n) a v le = elim (Bool-cases (ltb a.max_size a.used)) [
  | inr e ↦ (a, rw (evict_loop, e) refl, v, refl, ground arith)
  | inl e ↦
      let over : a.max_size < a.used = ground arith in
      let some_listed : 0 < length a.lru = elim (Bool-cases (length a.lru == 0)) [
        | inl b ↦ let z = used_zero a v (ground arith) in absurd (omega (arith, z, over))
        | inr b ↦ ground arith
      ] in
      let (t, l', p) = Pops-of a.lru some_listed in
      let s = evict-Shrinks a t l' v p in
      let (a', run, v', m, fits) =
        evict_loop-bounded n (evict a) s.valid (omega (arith, le, s.length_lem)) in
      (a', rw (evict_loop, e) run, v', m ∙ s.max_size_lem, fits)
]

touched-IsValid :
    (a : FlatAccnt) (lru : List EvictTarget)
    → IsValid a
    → ((x : EvictTarget) → contains x a.lru ≡ true → contains x lru ≡ true)
    → IsValid (record a { lru = lru })
touched-IsValid a lru v f = record {
  distinct = v.distinct;
  metrics = relisted a.lru lru a.metrics f v.metrics;
  used_lem = v.used_lem;
}

-- Handling an event ends and keeps the accounting valid.
handle-IsValid :
    (a : FlatAccnt) (e : Event)
    → IsValid a
    → (a' : FlatAccnt) × (handle a e ≡ some a') × IsValid a' × (a'.max_size ≡ a.max_size)
unfolding handle add add_range
handle-IsValid a (hit_chunk metric ts) v =
    let x : EvictTarget = record { metric = metric; ts = ts } in
    (_, refl, touched-IsValid a (touch x a.lru) v (λ y h. contains-touch y x a.lru h), refl)
handle-IsValid a (hit_chunks metric cs) v = (
  _,
  refl,
  touched-IsValid a (touch_all metric cs a.lru) v (λ y h. contains-touch_all y metric cs a.lru h),
  refl,
)
handle-IsValid a (add_chunk_event metric ts size) v =
    (_, refl, add-IsValid a metric ts size v, refl)
handle-IsValid a (add_chunks_event metric cs) v = (_, refl, add_range-IsValid a metric cs v, refl)
handle-IsValid a (del_metric metric) v = (del_met a metric, refl, del_met-IsValid a metric v, same)
  where
    same : (del_met a metric).max_size ≡ a.max_size
    same = elim (Option-cases (lookup same_key metric a.metrics)) [
      | inl e ↦ rw (del_met, e) refl
      | inr (met, e) ↦ rw (del_met, e) refl
    ]
handle-IsValid a get_total v = (a, refl, v, refl)
handle-IsValid a reset_all v = (
  record a { metrics = []; lru = []; used = 0 },
  rw (handle, reset-empties a.lru) refl,
  record { distinct = tt; metrics = tt; used_lem = omega arith },
  refl,
)

-- For a valid accounting and every event, the round of the event loop ends, with a valid accounting of
-- the same limit whose size is within the limit.
pub event_round-bounded :
    (a : FlatAccnt) (e : Event)
    → IsValid a
    → (a' : FlatAccnt) × (event_round a e ≡ some a')
      × IsValid a'
      × (a'.max_size ≡ a.max_size)
      × (a'.used ≤ a'.max_size)
unfolding event_round
event_round-bounded a e v =
    let (b, run, vb, m) = handle-IsValid a e v in
    let (a', loop, v', m', fits) = evict_loop-bounded (length b.lru) b vb (omega arith) in
    (a', rw (event_round, run) loop, v', m' ∙ m, fits)

event_loop-from :
    (events : List Event) (a : FlatAccnt)
    → IsValid a
    → a.used ≤ a.max_size
    → (a' : FlatAccnt) × (event_loop a events ≡ some a')
      × IsValid a'
      × (a'.max_size ≡ a.max_size)
      × (a'.used ≤ a'.max_size)
unfolding event_loop
event_loop-from [] a v fits = (a, refl, v, refl, fits)
event_loop-from (e ∷ es) a v fits =
    let (b, run, vb, m, fb) = event_round-bounded a e v in
    let (a', runs, v', m', f') = event_loop-from es b vb fb in
    (a', rw (event_loop, run) runs, v', m' ∙ m, f')

-- For every limit and every sequence of events, the event loop of a fresh accounting takes them all,
-- and at the end the size is within the limit and is, modulo 2^64, that of the chunks accounted, each
-- of which is in the list of targets.
pub event_loop-bounded :
    (max_size : ℕ) (events : List Event)
    → (a : FlatAccnt) × (event_loop (new_flat_accnt max_size) events ≡ some a)
      × IsValid a
      × (a.used ≤ max_size)
unfolding new_flat_accnt
event_loop-bounded max_size events =
    let (a, run, v, m, fits) =
      event_loop-from events (new_flat_accnt max_size)
        (record { distinct = tt; metrics = tt; used_lem = omega arith }) (omega arith) in
    (a, run, v, omega (arith, m, fits))
