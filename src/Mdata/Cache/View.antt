-- ===== src/Mdata/Cache/View.antt =====
-- What the cache of a metric holds under each timestamp, whatever the links: `Add` and `Del`.
use metrictank.Common.{
  ℕ, ◌≡◌, refl, sym, ap, ◌∙◌, inl, inr, Bool, true, false, List, [], ◌∷◌, ◌++◌, Option, none, some,
  ltb, leb, ◌&&◌, ◌==◌, if◌then◌else◌, Bool-cases, Option-cases, arith, All, All-append,
}
use mathlib.Core.Option.{some-injective}
use metrictank.Chunk.IterGen.{IterGen, gen_span}
use metrictank.Mdata.AggMetric.{◌>>=◌}
use metrictank.Mdata.Cache.{
  CacheChunk, find, is_cached, set_next, set_prev, remove, put, insert, sort, next_ts, next_ts_core,
  next_by, seek_down, last_key, add_key, link_prev, link_next,
}

-- The data under a timestamp.
unfoldable pub lookup : ℕ → List CacheChunk → Option IterGen
lookup t [] = none
lookup t (c ∷ cs) = let rest = lookup t cs in if c.ts == t then some c.itgen else rest

abbrev pub is_some : Option IterGen → Bool
is_some none = false
is_some (some g) = true

pub is_cached-lookup : (t : ℕ) (cs : List CacheChunk) → is_cached t cs ≡ is_some (lookup t cs)
unfolding is_cached find lookup
is_cached-lookup t [] = refl
is_cached-lookup t (c ∷ cs) = ground (arith, is_cached-lookup t cs)

pub lookup-set_next : (t a b : ℕ) (cs : List CacheChunk) → lookup t (set_next a b cs) ≡ lookup t cs
unfolding lookup set_next
lookup-set_next t a b [] = refl
lookup-set_next t a b (c ∷ cs) = elim (Bool-cases (c.ts == a)) [
  | inl e ↦ rw (e, lookup-set_next t a b cs) refl
  | inr e ↦ rw (e, lookup-set_next t a b cs) refl
]

pub lookup-set_prev : (t a b : ℕ) (cs : List CacheChunk) → lookup t (set_prev a b cs) ≡ lookup t cs
unfolding lookup set_prev
lookup-set_prev t a b [] = refl
lookup-set_prev t a b (c ∷ cs) = elim (Bool-cases (c.ts == a)) [
  | inl e ↦ rw (e, lookup-set_prev t a b cs) refl
  | inr e ↦ rw (e, lookup-set_prev t a b cs) refl
]

pub lookup-remove :
    (t ts : ℕ) (cs : List CacheChunk)
    → lookup t (remove ts cs) ≡ (if ts == t then none else lookup t cs)
unfolding lookup remove
lookup-remove t ts [] = elim (Bool-cases (ts == t)) [ inl e ↦ rw e refl | inr e ↦ rw e refl ]
lookup-remove t ts (c ∷ cs) = elim (Bool-cases (c.ts == ts)) [
  | inl e ↦ rw e (lookup-remove t ts cs ∙ ground arith)
  | inr e ↦ rw (e, lookup-remove t ts cs) (ground arith)
]

pub lookup-put :
    (t : ℕ) (c : CacheChunk) (cs : List CacheChunk)
    → lookup t (put c cs) ≡ (if c.ts == t then some c.itgen else lookup t cs)
unfolding put lookup
lookup-put t c cs = elim (Bool-cases (c.ts == t)) [
  | inl e ↦ rw e refl
  | inr e ↦ rw (e, lookup-remove t c.ts cs, e) refl
]

pub lookup-link_prev :
    (t prev ts : ℕ) (cs : List CacheChunk) → lookup t (link_prev prev ts cs) ≡ lookup t cs
unfolding link_prev
lookup-link_prev t prev ts cs = elim (Bool-cases (is_cached prev cs)) [
  | inl e ↦ rw (e, lookup-set_prev t ts prev (set_next prev ts cs)) (lookup-set_next t prev ts cs)
  | inr e ↦ rw e refl
]

pub lookup-link_next :
    (t next ts : ℕ) (cs : List CacheChunk) → lookup t (link_next next ts cs) ≡ lookup t cs
unfolding link_next
lookup-link_next t next ts cs = elim (Bool-cases (ltb ts next && is_cached next cs)) [
  | inl e ↦ rw (e, lookup-set_next t ts next (set_prev next ts cs)) (lookup-set_prev t next ts cs)
  | inr e ↦ rw e refl
]

-- Every key is cached.
abbrev pub Keyed : List CacheChunk → List ℕ → Type 0
Keyed cs = All (λ k. is_cached k cs ≡ true)

All-insert : (P : ℕ → Type 0) (k : ℕ) (xs : List ℕ) → P k → All P xs → All P (insert k xs)
unfolding insert
All-insert P k [] p q = (p, tt)
All-insert P k (x ∷ xs) p q = elim (Bool-cases (leb k x)) [
  | inl e ↦ rw e (p, q)
  | inr e ↦ rw e (q.0, All-insert P k xs p q.1)
]

pub All-sort : (P : ℕ → Type 0) (xs : List ℕ) → All P xs → All P (sort xs)
unfolding sort
All-sort P [] p = tt
All-sort P (x ∷ xs) p = All-insert P x (sort xs) p.0 (All-sort P xs p.1)

pub add_key-Keyed :
    (P : ℕ → Type 0) (keys : List ℕ) (ts : ℕ) → All P keys → P ts → All P (add_key keys ts)
unfolding add_key
add_key-Keyed P [] ts p q = (q, tt)
add_key-Keyed P (k ∷ ks) ts p q =
    let both = All-append P (k ∷ ks) (ts ∷ []) p (q, tt) in
    elim (Bool-cases (ltb ts (last_key (k ∷ ks)))) [
      | inl e ↦ rw e (All-sort P ((k ∷ ks) ++ ts ∷ []) both)
      | inr e ↦ rw e both
    ]

-- `Span` of the data returns.
abbrev pub HasSpan : IterGen → Type 0
HasSpan g = (span : ℕ) × (gen_span g ≡ some span)

-- `Span` returns for the data of every cached chunk.
abbrev pub Spanned : List CacheChunk → Type 0
Spanned cs = (t : ℕ) (g : IterGen) → lookup t cs ≡ some g → HasSpan g

find-lookup :
    (k : ℕ) (cs : List CacheChunk) (c : CacheChunk)
    → find k cs ≡ some c
    → lookup k cs ≡ some c.itgen
unfolding find lookup
find-lookup k [] c e = absurd (ground arith)
find-lookup k (x ∷ xs) c e = elim (Bool-cases (x.ts == k)) [
  | inl s ↦
      let same : x ≡ c = some-injective x c (rw s at e) in
      rw s (ap (λ (y : CacheChunk). some (y.itgen)) same)
  | inr d ↦ rw d (find-lookup k xs c (rw d at e))
]

pub next_ts-total :
    (cs : List CacheChunk) (k : ℕ)
    → Spanned cs
    → is_cached k cs ≡ true
    → (n : ℕ) × (next_ts cs k ≡ some n)
unfolding next_ts is_cached next_ts_core
next_ts-total cs k spanned h = elim (Option-cases (find k cs)) [
  | inl e ↦ absurd (ground arith)
  | inr (c, e) ↦
      let (span, es) = spanned k c.itgen (find-lookup k cs c e) in
      (next_by c.itgen.t0 span c.prev c.next, rw (e, ◌>>=◌, es) refl)
]

-- A chunk of which `Span` panics makes `nextTs` panic.
pub next_ts-none :
    (cs : List CacheChunk) (k : ℕ) (g : IterGen)
    → lookup k cs ≡ some g
    → gen_span g ≡ none
    → next_ts cs k ≡ none
unfolding next_ts next_ts_core
next_ts-none cs k g there bad = elim (Option-cases (find k cs)) [
  | inl e ↦ rw (e, ◌>>=◌) refl
  | inr (c, e) ↦
      let same : g ≡ c.itgen = some-injective g c.itgen (sym there ∙ find-lookup k cs c e) in
      let bad' : gen_span c.itgen ≡ none = ap gen_span (sym same) ∙ bad in rw (e, ◌>>=◌, bad') refl
]

pub seek_down-total :
    (cs : List CacheChunk) (keys : List ℕ) (ts : ℕ)
    → Spanned cs
    → Keyed cs keys
    → (res : Option ℕ) × (seek_down cs keys ts ≡ some res)
unfolding seek_down
seek_down-total cs [] ts spanned p = (none, refl)
seek_down-total cs (k ∷ ks) ts spanned p =
    let (n, e) = next_ts-total cs k spanned p.0 in
    let (res, r) = seek_down-total cs ks ts spanned p.1 in
    elim (Bool-cases (ltb ts n)) [
      | inr out ↦ (none, rw (e, ◌>>=◌, out) refl)
      | inl inside ↦ elim (Bool-cases (leb k ts)) [
        | inl le ↦ (some k, rw (e, ◌>>=◌, inside, le) refl)
        | inr gt ↦ (res, rw (e, ◌>>=◌, inside, gt) r)
      ]
    ]

pub Keyed-weaken :
    (cs cs' : List CacheChunk) (keys : List ℕ)
    → ((k : ℕ) → is_cached k cs ≡ true → is_cached k cs' ≡ true)
    → Keyed cs keys
    → Keyed cs' keys
Keyed-weaken cs cs' [] f p = tt
Keyed-weaken cs cs' (k ∷ ks) f p = (f k p.0, Keyed-weaken cs cs' ks f p.1)

pub same-cached :
    (t : ℕ) (cs cs' : List CacheChunk)
    → lookup t cs' ≡ lookup t cs
    → is_cached t cs' ≡ is_cached t cs
same-cached t cs cs' e = is_cached-lookup t cs' ∙ ap is_some e ∙ sym (is_cached-lookup t cs)
