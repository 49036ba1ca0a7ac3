-- ===== src/Mdata/Reorder/Correct.antt =====
-- `ReorderBuffer.Add`: validity, and the points that the buffer holds.
use native.Mathlib.Nat.{mod-add-mod, div-add-mod'}
use metrictank.Common.{
  ℕ, ◌+◌, ◌*◌, ◌/◌, ◌%◌, ◌≤◌, ◌<◌, ◌≡◌, ◌≢◌, ◌⊎◌, refl, sym, ap, ◌∙◌, inl, inr, List, [], ◌∷◌, ◌++◌,
  arith, true, false, ℕ_discrete, subst,
}
use metrictank.Common.Words.{u32_mod}
use metrictank.Schema.{Point}
use metrictank.Mdata.Boundary.{agg_boundary, agg_boundary_bounds}
use metrictank.Mdata.Errors.{ok}
use metrictank.Mdata.Reorder.{ReorderBuffer, at, cap, index_of, is_too_old, add, get, new}
use metrictank.Mdata.Reorder.Window.{keep}
use metrictank.Mdata.Reorder.Conserve.{advance_conserve}
use metrictank.Mdata.Reorder.Invariant.{
  IsValid, Placed, newest_ts, newest-lt-cap, flush_count-cases, div-lt, same_round, index_of-lt,
}
use metrictank.Mdata.Reorder.Takes.{
  Takes, ahead, over, into, add_at-Takes, add_at-IsValid, in_window_of, div-le,
}
use metrictank.Mdata.Reorder.Insert.{written-get}

div-mul_of_mod : (b i : ℕ) → b % i ≡ 0 → b / i * i ≡ b
div-mul_of_mod b i e = omega (arith, div-add-mod' b i)

boundary :
    (rob : ReorderBuffer) (ts : ℕ)
    → IsValid rob
    → 0 < ts
    → ts + rob.interval ≤ u32_mod
    → let b = agg_boundary ts rob.interval in
      (0 < b) × (b < u32_mod) × (b / rob.interval * rob.interval ≡ b)
boundary rob ts v pos fit =
    let (lo, hi, al) = agg_boundary_bounds ts rob.interval pos v.interval_pos fit in
    (omega arith, omega arith, div-mul_of_mod (agg_boundary ts rob.interval) rob.interval al)

-- A buffer that was valid is valid after any `Add` that succeeds, for a timestamp other than 0 that
-- is at least an interval before 2^32.
pub add-IsValid :
    (rob rob' : ReorderBuffer) (ts val : ℕ) (res : List Point)
    → IsValid rob
    → 0 < ts
    → ts + rob.interval ≤ u32_mod
    → add rob ts val ≡ ok (res, rob')
    → IsValid rob'
unfolding add
add-IsValid rob rob' ts val res v pos fit e =
    let (p, lt, al) = boundary rob ts v pos fit in
    add_at-IsValid rob rob' (agg_boundary ts rob.interval) val res v p lt al
      (add_at-Takes rob rob' (agg_boundary ts rob.interval) val res e)

index_ahead :
    (rob : ReorderBuffer) (b : ℕ) {f : ℕ}
    → IsValid rob
    → (f ≡ cap rob) ⊎ (newest_ts rob / rob.interval + f ≡ b / rob.interval)
    → (f ≡ cap rob) ⊎ (index_of rob b ≡ (rob.newest + f) % cap rob)
unfolding index_of
index_ahead rob b v (inl e) = inl e
index_ahead rob b {f} v (inr e) = inr (
    ap (λ q. q % cap rob) (sym e)
    ∙ sym (mod-add-mod (newest_ts rob / rob.interval) (cap rob) f)
    ∙ ap (λ n. (n + f) % cap rob) v.newest_slot)

-- For a valid buffer and a timestamp other than 0, at least an interval before 2^32: when `Add`
-- succeeds on a point whose boundary is ahead of the newest, no point is lost, repeated or reordered:
-- the points handed on, followed by those that `Get` then lists, are those that `Get` listed before,
-- followed by the new point at its boundary.
pub add_ahead :
    (rob rob' : ReorderBuffer) (ts val : ℕ) (res : List Point)
    → IsValid rob
    → 0 < ts
    → ts + rob.interval ≤ u32_mod
    → newest_ts rob < agg_boundary ts rob.interval
    → add rob ts val ≡ ok (res, rob')
    → res ++ get rob' ≡ get rob ++ record { val = val; ts = agg_boundary ts rob.interval } ∷ []
unfolding add
add_ahead rob rob' ts val res v pos fit newer e =
    let (p, lt, al) = boundary rob ts v pos fit in
    conserve (agg_boundary ts rob.interval) newer p lt al
      (add_at-Takes rob rob' (agg_boundary ts rob.interval) val res e)
  where
    conserve :
        (b : ℕ)
        → newest_ts rob < b
        → 0 < b
        → b < u32_mod
        → b / rob.interval * rob.interval ≡ b
        → Takes rob b val res rob'
        → res ++ get rob' ≡ get rob ++ record { val = val; ts = b } ∷ []
    conserve b newer p lt al (ahead _ t) =
        let (f, le, place) = flush_count-cases rob b v al lt newer in
        subst (λ r. r.0 ++ get r.1 ≡ get rob ++ record { val = val; ts = b } ∷ []) t
          (advance_conserve rob b val (newest-lt-cap v) (λ z. omega arith) f le
            (index_ahead rob b v place))
    conserve b newer p lt al (over same up r t) =
        let at_top = v.slots (index_of rob b) (index_of-lt rob b v.nonempty) (λ z. omega arith) in
        let le : b / rob.interval ≤ newest_ts rob / rob.interval = rw same at at_top.le_top in
        absurd (omega (arith, div-lt rob.interval (newest_ts rob) b v.newest_aligned al newer))
    conserve b newer p lt al (into other le new r t) = absurd (omega arith)

keep-cons : (p : Point) (ps : List Point) → p.ts ≢ 0 → keep p ps ≡ p ∷ ps
keep-cons p ps h = ground arith

keep-zero : (p : Point) (ps : List Point) → p.ts ≡ 0 → keep p ps ≡ ps
keep-zero p ps h = ground arith

-- The slot of a point of the window is free, or holds that timestamp.
into-free :
    (rob : ReorderBuffer) (b : ℕ)
    → IsValid rob
    → 0 < b
    → b / rob.interval * rob.interval ≡ b
    → b ≤ newest_ts rob
    → is_too_old rob b ≡ false
    → (at rob.buf (index_of rob b)).ts ≢ b
    → (at rob.buf (index_of rob b)).ts ≡ 0
into-free rob b v pos al le new other = elim (ℕ_discrete (at rob.buf (index_of rob b)).ts 0) [
  | yes z ↦ z
  | no ne ↦ absurd (other (same_ts (v.slots (index_of rob b) (index_of-lt rob b v.nonempty) ne)))
]
  where
    same_ts :
        Placed rob.interval
          (cap rob)
          (newest_ts rob)
          (index_of rob b)
          (at rob.buf (index_of rob b)).ts
        → (at rob.buf (index_of rob b)).ts ≡ b
    same_ts pl =
        sym pl.aligned
        ∙ ap (λ q. q * rob.interval)
            (same_round (cap rob) ((at rob.buf (index_of rob b)).ts / rob.interval)
              (b / rob.interval) (omega (arith, in_window_of rob b v pos al le new))
              (omega (
                arith,
                div-le rob.interval b (newest_ts rob) v.interval_pos al v.newest_aligned le,
              ))
              (pl.in_slot ∙ unfold index_of in refl))
        ∙ al

-- For a valid buffer and a timestamp other than 0, at least an interval before 2^32: when `Add`
-- succeeds on a point whose boundary is not ahead of the newest, it hands none on and changes what
-- `Get` lists in one place: it stands where the point of its slot stood before, if there was
-- one, which then had the same timestamp.
pub add_within :
    (rob rob' : ReorderBuffer) (ts val : ℕ) (res : List Point)
    → IsValid rob
    → 0 < ts
    → ts + rob.interval ≤ u32_mod
    → agg_boundary ts rob.interval ≤ newest_ts rob
    → add rob ts val ≡ ok (res, rob')
    → let p : Point = record { val = val; ts = agg_boundary ts rob.interval } in
      (res ≡ [])
      × ((xs : List Point) × (ys : List Point) × (get rob' ≡ xs ++ p ∷ ys)
          × ((get rob ≡ xs ++ ys)
              ⊎ ((old : Point) × (old.ts ≡ p.ts)
                  × (rob.allow_update ≡ true)
                  × (get rob ≡ xs ++ old ∷ ys))))
unfolding add
add_within rob rob' ts val res v pos fit le e =
    let (p, lt, al) = boundary rob ts v pos fit in
    within (agg_boundary ts rob.interval) le p al
      (add_at-Takes rob rob' (agg_boundary ts rob.interval) val res e)
  where
    within :
        (b : ℕ)
        → b ≤ newest_ts rob
        → 0 < b
        → b / rob.interval * rob.interval ≡ b
        → Takes rob b val res rob'
        → (res ≡ [])
          × ((xs : List Point) × (ys : List Point) × (get rob'
                ≡ xs ++ record { val = val; ts = b } ∷ ys)
              × ((get rob ≡ xs ++ ys)
                  ⊎ ((old : Point) × (old.ts ≡ b)
                      × (rob.allow_update ≡ true)
                      × (get rob ≡ xs ++ old ∷ ys))))
    within b le p al (ahead newer t) = absurd (omega arith)
    within b le p al (over same up r t) =
        let (xs, ys, after, before) = written-get rob b val v (λ z. omega arith) in
        (
          r,
          (
            xs,
            ys,
            ap get t ∙ after,
            inr (
              at rob.buf (index_of rob b),
              same,
              up,
              before ∙ ap (◌++◌ xs) (keep-cons _ ys (λ z. omega arith)),
            ),
          ),
        )
    within b le p al (into other _ new r t) =
        let (xs, ys, after, before) = written-get rob b val v (λ z. omega arith) in
        (
          r,
          (
            xs,
            ys,
            ap get t ∙ after,
            inl (before ∙ ap (◌++◌ xs) (keep-zero _ ys (into-free rob b v p al le new other))),
          ),
        )
