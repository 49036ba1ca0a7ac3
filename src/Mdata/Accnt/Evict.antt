-- ===== src/Mdata/Accnt/Evict.antt =====
-- A round of eviction keeps the accounting valid and takes a target off its list.
use metrictank.Common.{
  ℕ, suc, ◌%◌, ◌^◌, ◌<◌, ◌≡◌, refl, sym, ap, ◌∙◌, Bool, true, false, ◌&&◌, List, [], ◌∷◌, ◌==◌, leb,
  arith, Bool-cases, Option-cases, inl, inr, All, length,
}
use metrictank.Schema.{AmKey}
use metrictank.Mdata.Cache.{sort}
use metrictank.Mdata.Accnt.Assoc.{
  lookup, delete, Distinct-delete, Distinct-put, All-delete, All-map_to, lookup-delete_self,
}
use metrictank.Mdata.Accnt.{
  EvictTarget, FlatAccnt, FlatAccntMet, same_key, same_target, contains, evict, evicted,
  evict_chunks, up_to,
}
use metrictank.Mdata.Accnt.Recent.{same_key_law, Pops, pop-Pops}
use metrictank.Mdata.Accnt.Sizes.{Evicts, Gone, evict_chunks-Evicts}
use metrictank.Mdata.Accnt.Valid.{Listed, MetValid, IsValid, size_of_all, relisted_others, found}

key_flip : (a b : AmKey) → same_key a b ≡ false → same_key b a ≡ false
key_flip a b f = elim (Bool-cases (same_key b a)) [
  | inr g ↦ g
  | inl g ↦ let t : same_key a b ≡ true = (same_key_law a b).1 (sym ((same_key_law b a).0 g)) in cc
]

other_target : (x t : EvictTarget) → same_key t.metric x.metric ≡ false → same_target x t ≡ false
other_target x t f = let g = key_flip t.metric x.metric f in rw g refl

other_time :
    (k : AmKey) (c ts : ℕ)
    → leb c ts ≡ false
    → same_target (record { metric = k; ts = c }) (record { metric = k; ts = ts }) ≡ false
other_time k c ts f = let e : c == ts ≡ false = ground arith in rw e (and_false (same_key k k))
  where
    and_false : (b : Bool) → b && false ≡ false
    and_false true = refl
    and_false false = refl

All-both :
    (P Q : ℕ × ℕ → Type 0) (xs : List (ℕ × ℕ)) → All P xs → All Q xs → All (λ c. P c × Q c) xs
All-both P Q [] h g = tt
All-both P Q (x ∷ xs) h g = ((h.0, g.0), All-both P Q xs h.1 g.1)

pub Pops-of :
    (l : List EvictTarget)
    → 0 < length l
    → (t : EvictTarget) × (l' : List EvictTarget) × Pops l t l'
Pops-of [] h = absurd (omega (arith, h))
Pops-of (y ∷ l) h = pop-Pops y l

-- A round of eviction for the target that `pop` takes.
pub record Shrinks (a a' : FlatAccnt) : Type 0 where
  pub valid : IsValid a'
  pub max_size_lem : a'.max_size ≡ a.max_size
  pub length_lem : length a.lru ≡ suc (length a'.lru)

others :
    (l : List EvictTarget) (t : EvictTarget) (l' : List EvictTarget)
    → Pops l t l'
    → (x : EvictTarget) → same_key t.metric x.metric ≡ false
    → contains x l ≡ true
    → contains x l' ≡ true
others l t l' p x ne h = p.keeps x h (other_target x t ne)

evicted-Shrinks :
    (a : FlatAccnt) (t : EvictTarget) (l' : List EvictTarget)
    (r : FlatAccntMet × ℕ × List EvictTarget)
    → IsValid a
    → Pops a.lru t l'
    → Evicts (Listed a.lru t.metric) (size_of_all (delete same_key t.metric a.metrics)) r.0 r.1
    → Gone t.ts r.0.chunks
    → Shrinks a (evicted (record a { lru = l' }) t.metric r)
evicted-Shrinks a t l' (met, used, q) v p ev gone =
    let rest = delete same_key t.metric a.metrics in
    let rest_distinct = Distinct-delete same_key same_key_law t.metric a.metrics v.distinct in
    let rest_valid : All (MetValid l') rest =
      relisted_others a.lru l' t.metric rest
        (lookup-delete_self same_key same_key_law t.metric a.metrics v.distinct)
        (others a.lru t l' p)
        (All-delete same_key same_key_law (MetValid a.lru) t.metric a.metrics v.metrics) in
    let left : All (Listed l' t.metric) met.chunks =
      All-map_to _ _ met.chunks
        (λ c h.
          p.keeps (record { metric = t.metric; ts = c.0 }) h.0 (other_time t.metric c.0 t.ts h.1))
        (All-both _ _ met.chunks ev.all gone) in
    elim (Bool-cases (met.total == 0)) [
      | inl e ↦
          let none_left : met.total ≡ 0 = ground arith in
          rw e (record {
            valid = record {
              distinct = rest_distinct;
              metrics = rest_valid;
              used_lem = omega (arith, ev.used_lem, ev.total_lem, none_left);
            };
            max_size_lem = refl;
            length_lem = p.length_lem;
          })
      | inr e ↦ rw e (record {
        valid = record {
          distinct = Distinct-put same_key same_key_law t.metric met a.metrics v.distinct;
          metrics = (
            record { distinct = ev.distinct; total_lem = ev.total_lem; listed = left },
            rest_valid,
          );
          used_lem = ev.used_lem;
        };
        max_size_lem = refl;
        length_lem = p.length_lem;
      })
    ]

pub evict-Shrinks :
    (a : FlatAccnt) (t : EvictTarget) (l' : List EvictTarget)
    → IsValid a
    → Pops a.lru t l'
    → Shrinks a (evict a)
unfolding evict
evict-Shrinks a t l' v p = elim (Option-cases (lookup same_key t.metric a.metrics)) [
  | inl e ↦
      rw (evict, p.pop_lem, e)
        (record {
          valid = record {
            distinct = v.distinct;
            metrics = relisted_others a.lru l' t.metric a.metrics e (others a.lru t l' p) v.metrics;
            used_lem = v.used_lem;
          };
          max_size_lem = refl;
          length_lem = p.length_lem;
        })
  | inr (met, e) ↦
      let g = found a t.metric v in
      let rest = delete same_key t.metric a.metrics in
      let here = rw e at g.here in
      let size_lem = rw e at g.size_lem in
      let start : Evicts (Listed a.lru t.metric) (size_of_all rest) met a.used = record {
        distinct = here.distinct;
        all = here.listed;
        total_lem = here.total_lem;
        used_lem = v.used_lem ∙ ap (λ k. k % 2 ^ 64) size_lem;
      } in
      let (ev, gone) =
        evict_chunks-Evicts (Listed a.lru t.metric) (size_of_all rest) t.ts t.metric met a.used
          a.evict_q start in
      rw (evict, p.pop_lem, e)
        (evicted-Shrinks a t l'
          (evict_chunks t.metric (sort (up_to t.ts met.chunks)) met a.used a.evict_q) v p ev gone)
]
