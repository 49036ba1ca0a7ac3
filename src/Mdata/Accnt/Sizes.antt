-- ===== src/Mdata/Accnt/Sizes.antt =====
-- The sizes of a metric's chunks while chunks are added and evicted (flat_accnt.go).
use metrictank.Common.{
  ℕ, ◌+◌, ◌%◌, ◌^◌, ◌≡◌, refl, sym, ap, ◌∙◌, Bool, true, false, ◌||◌, List, [], ◌∷◌, ◌==◌, leb,
  ==_iff, if◌then◌else◌, arith, Bool-cases, Option-cases, inl, inr, All,
}
use metrictank.Schema.{AmKey}
use metrictank.Chunk.IterGen.{IterGen, gen_size}
use metrictank.Mdata.Cache.{sort, insert}
use metrictank.Mdata.Accnt.Assoc.{
  lookup, delete, total_of, Distinct, total_of-delete, delete-none, Distinct-delete, All-delete,
  All-absent, All-map_to, lookup-delete_self,
}
use metrictank.Mdata.Accnt.{
  EvictTarget, FlatAccntMet, add_chunk, add_chunks, add64, sub64, up_to, evict_chunks, size_of,
}

abbrev pub sum_of : List (ℕ × ℕ) → ℕ
sum_of = total_of (λ size. size)

-- Chunks behind an addition: those that were there, and maybe more.
pub record Added (P : ℕ × ℕ → Type 0) (chunks : List (ℕ × ℕ)) (d : ℕ) (r : List (ℕ × ℕ) × ℕ)
    : Type 0 where
  pub distinct : Distinct ◌==◌ r.0
  pub all : All P r.0
  pub sum_lem : (sum_of r.0 + d) % 2 ^ 64 ≡ (sum_of chunks + r.1) % 2 ^ 64

pub add_chunk-Added :
    (P : ℕ × ℕ → Type 0) (chunks : List (ℕ × ℕ)) (ts size : ℕ)
    → Distinct ◌==◌ chunks
    → All P chunks
    → P (ts, size)
    → Added P chunks 0 (add_chunk chunks ts size)
unfolding add_chunk
add_chunk-Added P chunks ts size d h p = elim (Option-cases (lookup ◌==◌ ts chunks)) [
  | inr (s, e) ↦ rw (add_chunk, e) (record { distinct = d; all = h; sum_lem = refl })
  | inl e ↦
      let same = delete-none ◌==◌ ==_iff ts chunks e in
      rw (add_chunk, e, same) (record { distinct = (e, d); all = (p, h); sum_lem = omega arith })
]

pub add_chunks-Added :
    (P : ℕ × ℕ → Type 0) (cs : List IterGen) (chunks : List (ℕ × ℕ)) (d : ℕ)
    → Distinct ◌==◌ chunks
    → All P chunks
    → All (λ (c : IterGen). P (c.t0, gen_size c)) cs
    → Added P chunks d (add_chunks cs chunks d)
unfolding add_chunks
add_chunks-Added P [] chunks d dis h p = record { distinct = dis; all = h; sum_lem = refl }
add_chunks-Added P (c ∷ cs) chunks d dis h p =
    let one = add_chunk-Added P chunks c.t0 (gen_size c) dis h p.0 in
    let r = add_chunk chunks c.t0 (gen_size c) in
    let rest = add_chunks-Added P cs r.0 (add64 d r.1) one.distinct one.all p.1 in
    record {
      distinct = rest.distinct;
      all = rest.all;
      sum_lem = omega (arith, one.sum_lem, rest.sum_lem);
    }

-- The targets of an eviction.
mem : ℕ → List ℕ → Bool
mem x [] = false
mem x (y ∷ ys) = x == y || mem x ys

or_swap : (a b c : Bool) → a || (b || c) ≡ b || (a || c)
or_swap true true c = refl
or_swap true false c = refl
or_swap false b c = refl

mem-insert : (x y : ℕ) (ys : List ℕ) → mem x (insert y ys) ≡ x == y || mem x ys
unfolding mem insert
mem-insert x y [] = refl
mem-insert x y (z ∷ ys) = elim (Bool-cases (leb y z)) [
  | inl e ↦ rw e refl
  | inr e ↦ rw e (ap (λ b. x == z || b) (mem-insert x y ys) ∙ or_swap (x == z) (x == y) (mem x ys))
]

mem-sort : (x : ℕ) (ys : List ℕ) → mem x (sort ys) ≡ mem x ys
unfolding mem sort
mem-sort x [] = refl
mem-sort x (y ∷ ys) = mem-insert x y (sort ys) ∙ ap (λ b. x == y || b) (mem-sort x ys)

-- The chunks up to a timestamp are still to be evicted.
Targeted : ℕ → List ℕ → List (ℕ × ℕ) → Type 0
Targeted ts targets = All (λ c. leb c.0 ts ≡ true → mem c.0 targets ≡ true)

abbrev IsIn : List ℕ → List ℕ → Type 0
IsIn xs ys = (x : ℕ) → mem x xs ≡ true → mem x ys ≡ true

up_to-Targeted :
    (ts : ℕ) (chunks : List (ℕ × ℕ)) (targets : List ℕ)
    → IsIn (up_to ts chunks) targets
    → Targeted ts targets chunks
unfolding up_to mem Targeted
up_to-Targeted ts [] targets f = tt
up_to-Targeted ts ((t, size) ∷ chunks) targets f = (
  λ h. f t (rw h (here (mem t (up_to ts chunks)))),
  up_to-Targeted ts chunks targets (λ x m. f x (later x (leb t ts) m)),
)
  where
    here : (b : Bool) → t == t || b ≡ true
    here b = let e : t == t ≡ true = ground arith in rw e refl

    or_true : (b : Bool) → b || true ≡ true
    or_true true = refl
    or_true false = refl

    later :
        (x : ℕ) (c : Bool)
        → mem x (up_to ts chunks) ≡ true
        → mem x (if c then t ∷ up_to ts chunks else up_to ts chunks) ≡ true
    later x true m = rw m (or_true (x == t))
    later x false m = m

-- A metric while its chunks are evicted, next to others of a total size `others`.
pub record Evicts (P : ℕ × ℕ → Type 0) (others : ℕ) (met : FlatAccntMet) (used : ℕ) : Type 0 where
  pub distinct : Distinct ◌==◌ met.chunks
  pub all : All P met.chunks
  pub total_lem : met.total ≡ sum_of met.chunks % 2 ^ 64
  pub used_lem : used ≡ (sum_of met.chunks + others) % 2 ^ 64

evict_one :
    (P : ℕ × ℕ → Type 0) (others : ℕ) (met : FlatAccntMet) (used x : ℕ)
    → Evicts P others met used
    → let size = size_of (lookup ◌==◌ x met.chunks) in
      Evicts P others
        (record { total = sub64 met.total size; chunks = delete ◌==◌ x met.chunks })
        (sub64 used size)
evict_one P others met used x v = elim (Option-cases (lookup ◌==◌ x met.chunks)) [
  | inl e ↦
      let same = delete-none ◌==◌ ==_iff x met.chunks e in
      rw (e, same)
        (record {
          distinct = v.distinct;
          all = v.all;
          total_lem = omega (arith, v.total_lem);
          used_lem = omega (arith, v.used_lem);
        })
  | inr (s, e) ↦
      let sum_lem = total_of-delete ◌==◌ ==_iff (λ size. size) x s met.chunks e in
      rw e (record {
        distinct = Distinct-delete ◌==◌ ==_iff x met.chunks v.distinct;
        all = All-delete ◌==◌ ==_iff P x met.chunks v.all;
        total_lem = omega (arith, v.total_lem, sum_lem);
        used_lem = omega (arith, v.used_lem, sum_lem);
      })
]

-- What was targeted is gone, once every target is.
abbrev pub Gone : ℕ → List (ℕ × ℕ) → Type 0
Gone ts = All (λ c. leb c.0 ts ≡ false)

evict_chunks-Gone :
    (P : ℕ × ℕ → Type 0) (others ts : ℕ) (metric : AmKey) (targets : List ℕ) (met : FlatAccntMet)
    (used : ℕ) (q : List EvictTarget)
    → Evicts P others met used
    → Targeted ts targets met.chunks
    → let r = evict_chunks metric targets met used q in Evicts P others r.0 r.1 × Gone ts r.0.chunks
unfolding evict_chunks Targeted mem
evict_chunks-Gone P others ts metric [] met used q v t =
    (v, All-map_to _ _ met.chunks (λ c h. not_true (leb c.0 ts) h) t)
  where
    not_true : (b : Bool) → (b ≡ true → false ≡ true) → b ≡ false
    not_true true h = sym (h refl)
    not_true false h = refl
evict_chunks-Gone P others ts metric (x ∷ targets) met used q v t =
    evict_chunks-Gone P others ts metric targets _ _ _ (evict_one P others met used x v) (
      All-map_to _ _ (delete ◌==◌ x met.chunks) (λ c h g. left c.0 (flip c.0 h.0) (h.1 g))
        (All-absent ◌==◌ ==_iff _ x (delete ◌==◌ x met.chunks)
          (lookup-delete_self ◌==◌ ==_iff x met.chunks v.distinct)
          (All-delete ◌==◌ ==_iff _ x met.chunks t)))
  where
    flip : (y : ℕ) → x == y ≡ false → y == x ≡ false
    flip y h = ground arith

    left : (y : ℕ) → y == x ≡ false → y == x || mem y targets ≡ true → mem y targets ≡ true
    left y h g = rw h at g

-- The chunks that `evict` takes from a metric: those up to the timestamp, and no others are left.
pub evict_chunks-Evicts :
    (P : ℕ × ℕ → Type 0) (others ts : ℕ) (metric : AmKey) (met : FlatAccntMet) (used : ℕ)
    (q : List EvictTarget)
    → Evicts P others met used
    → let r = evict_chunks metric (sort (up_to ts met.chunks)) met used q in
      Evicts P others r.0 r.1 × Gone ts r.0.chunks
evict_chunks-Evicts P others ts metric met used q v =
    evict_chunks-Gone P others ts metric (sort (up_to ts met.chunks)) met used q v (
      up_to-Targeted ts met.chunks (sort (up_to ts met.chunks))
        (λ x h. mem-sort x (up_to ts met.chunks) ∙ h))
