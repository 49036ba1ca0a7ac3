-- ===== src/Mdata/Reorder/Insert.antt =====
-- A write into one slot of the reorder buffer, in the order of `Get`.
use native.Mathlib.Nat.{mod-eq_of_lt}
use metrictank.Common.{
  ℕ, suc, ◌+◌, ◌-◌, ◌%◌, ◌≤◌, ◌<◌, ◌≡◌, ◌≢◌, refl, sym, ap, ap₂, ◌∙◌, List, ◌∷◌, ◌++◌, length, set,
  arith, length-set, get_or-set_self, get_or-set_ne,
}
use metrictank.Common.Ring.{mod-ne, round_position}
use metrictank.Schema.{Point}
use metrictank.Mdata.Reorder.{ReorderBuffer, at, cap, zero_point, index_of, get}
use metrictank.Mdata.Reorder.Window.{window, keep, window-add, window-ext}
use metrictank.Mdata.Reorder.Conserve.{get-window}
use metrictank.Mdata.Reorder.Invariant.{IsValid, newest-lt-cap, written, index_of-lt}

-- A write into a slot, seen in the order of `Get`.
pub written-get :
    (rob : ReorderBuffer) (ts val : ℕ)
    → IsValid rob
    → ts ≢ 0
    → (xs : List Point) × (ys : List Point) × (get (written rob ts val)
        ≡ xs ++ record { val = val; ts = ts } ∷ ys)
      × (get rob ≡ xs ++ keep (at rob.buf (index_of rob ts)) ys)
written-get rob ts val v ne =
    let (m, lo, hi, e) = round_position (cap rob) (rob.newest + 1) (index_of rob ts) v.nonempty in
    let slot : m % cap rob ≡ index_of rob ts = e ∙ mod-eq_of_lt (index_of-lt rob ts v.nonempty) in
    let a = m - (rob.newest + 1) in
    let b = cap rob - 1 - a in
    (
      window rob.buf (rob.newest + 1) a,
      window rob.buf (m + 1) b,
      after m lo hi slot,
      before m lo hi slot,
    )
  where
    p : Point
    p = record { val = val; ts = ts }

    buf' : List Point
    buf' = set rob.buf (index_of rob ts) p

    len : length buf' ≡ cap rob
    len = length-set rob.buf (index_of rob ts) p

    split :
        (buf : List Point) (m : ℕ)
        → length buf ≡ cap rob
        → rob.newest + 1 ≤ m
        → m < rob.newest + 1 + cap rob
        → m % cap rob ≡ index_of rob ts
        → window buf (rob.newest + 1) (cap rob)
          ≡ window buf (rob.newest + 1) (m - (rob.newest + 1))
            ++ keep
                (at buf (index_of rob ts))
                (window buf (m + 1) (cap rob - 1 - (m - (rob.newest + 1))))
    split buf m l lo hi slot =
        let a = m - (rob.newest + 1) in
        ap (window buf (rob.newest + 1)) {x = cap rob} {y = a + suc (cap rob - 1 - a)} (omega arith)
        ∙ window-add buf (rob.newest + 1) a (suc (cap rob - 1 - a))
        ∙ ap (λ k. window buf (rob.newest + 1) a ++ window buf k (suc (cap rob - 1 - a)))
            {x = rob.newest + 1 + a} {y = m} (omega arith)
        ∙ ap
            (λ i.
              window buf (rob.newest + 1) a
              ++ keep (at buf i) (window buf (m + 1) (cap rob - 1 - a)))
            (ap (λ n. m % n) l ∙ slot)

    before :
        (m : ℕ)
        → rob.newest + 1 ≤ m
        → m < rob.newest + 1 + cap rob
        → m % cap rob ≡ index_of rob ts
        → get rob
          ≡ window rob.buf (rob.newest + 1) (m - (rob.newest + 1))
            ++ keep
                (at rob.buf (index_of rob ts))
                (window rob.buf (m + 1) (cap rob - 1 - (m - (rob.newest + 1))))
    before m lo hi slot = get-window rob (newest-lt-cap v) ∙ split rob.buf m refl lo hi slot

    away :
        (m j : ℕ)
        → m % cap rob ≡ index_of rob ts
        → m % cap rob ≢ j % cap rob
        → at buf' (j % cap rob) ≡ at rob.buf (j % cap rob)
    away m j slot ne =
        get_or-set_ne rob.buf (index_of rob ts) (j % cap rob) p zero_point (λ e. ne (slot ∙ e))

    after :
        (m : ℕ)
        → rob.newest + 1 ≤ m
        → m < rob.newest + 1 + cap rob
        → m % cap rob ≡ index_of rob ts
        → get (written rob ts val)
          ≡ window rob.buf (rob.newest + 1) (m - (rob.newest + 1))
            ++ p ∷ window rob.buf (m + 1) (cap rob - 1 - (m - (rob.newest + 1)))
    after m lo hi slot =
        get-window (written rob ts val) (rw len (newest-lt-cap v))
        ∙ ap (window buf' (rob.newest + 1)) len
        ∙ split buf' m len lo hi slot
        ∙ ap₂ ◌++◌
            (window-ext buf' rob.buf (rob.newest + 1) (m - (rob.newest + 1)) len (λ j c d.
              away m j slot (λ e. mod-ne (cap rob) j m (omega arith) (omega arith) (sym e))))
            (ap₂ keep
                (get_or-set_self rob.buf (index_of rob ts) p zero_point
                  (index_of-lt rob ts v.nonempty))
                (window-ext buf' rob.buf (m + 1) (cap rob - 1 - (m - (rob.newest + 1))) len
                  (λ j c d. away m j slot (mod-ne (cap rob) m j (omega arith) (omega arith))))
              ∙ ground arith)
