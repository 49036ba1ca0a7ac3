-- ===== src/Mdata/Reorder/Order.antt =====
-- The order of the points that `ReorderBuffer.Get` lists.
use native.Mathlib.Nat.{mod-lt}
use metrictank.Common.{
  ℕ, zero, suc, ◌+◌, ◌%◌, ◌≤◌, ◌<◌, ◌≢◌, inl, inr, List, [], ◌∷◌, arith, Bool-cases, ◌==◌,
}
use metrictank.Schema.{Point}
use metrictank.Mdata.Reorder.{ReorderBuffer, at, cap, get}
use metrictank.Mdata.Reorder.Window.{window}
use metrictank.Mdata.Reorder.Conserve.{get-window}
use metrictank.Mdata.Reorder.Invariant.{IsValid, newest-lt-cap, position_bucket, lt_of_buckets}

-- Timestamps strictly ascend from above `lo` on.
abbrev pub Ascends : ℕ → List Point → Type 0
Ascends lo [] = Unit {0}
Ascends lo (p ∷ ps) = (lo < p.ts) × Ascends p.ts ps

later_bucket :
    (rob : ReorderBuffer) (j k : ℕ)
    → IsValid rob
    → rob.newest + 1 ≤ j
    → j < k
    → k < rob.newest + 1 + cap rob
    → (at rob.buf (j % cap rob)).ts ≢ 0
    → (at rob.buf (k % cap rob)).ts ≢ 0
    → (at rob.buf (j % cap rob)).ts < (at rob.buf (k % cap rob)).ts
later_bucket rob j k v lo lt hi nj nk =
    lt_of_buckets rob.interval (at rob.buf (j % cap rob)).ts (at rob.buf (k % cap rob)).ts
      v.interval_pos (v.slots (j % cap rob) (mod-lt j v.nonempty) nj).aligned
      (v.slots (k % cap rob) (mod-lt k v.nonempty) nk).aligned
      (omega (
        arith,
        position_bucket rob j v lo (omega arith) nj,
        position_bucket rob k v (omega arith) hi nk,
      ))

window-Ascends :
    (rob : ReorderBuffer) (n k lo : ℕ)
    → IsValid rob
    → rob.newest + 1 ≤ k
    → k + n ≤ rob.newest + 1 + cap rob
    → ((j : ℕ)
        → k ≤ j
        → j < k + n
        → (at rob.buf (j % cap rob)).ts ≢ 0
        → lo < (at rob.buf (j % cap rob)).ts)
    → Ascends lo (window rob.buf k n)
window-Ascends rob zero k lo v a b h = tt
window-Ascends rob (suc n) k lo v a b h = elim (Bool-cases ((at rob.buf (k % cap rob)).ts == 0)) [
  | inl e ↦ rw e (
      window-Ascends rob n (k + 1) lo v (omega arith) (omega arith)
        (λ j p q. h j (omega arith) (omega arith)))
  | inr e ↦
      let ne : (at rob.buf (k % cap rob)).ts ≢ 0 = ground arith in
      rw e (
        h k (omega arith) (omega arith) ne,
        window-Ascends rob n (k + 1) (at rob.buf (k % cap rob)).ts v (omega arith) (omega arith)
            (λ j p q nj. later_bucket rob k j v a (omega arith) (omega arith) ne nj),
      )
]

-- `Get` of a valid buffer lists the points by ascending timestamp, each timestamp once, and none of them 0.
pub get-Ascends : (rob : ReorderBuffer) → IsValid rob → Ascends 0 (get rob)
get-Ascends rob v = rw (get-window rob (newest-lt-cap v)) (
    window-Ascends rob (cap rob) (rob.newest + 1) 0 v (omega arith) (omega arith)
      (λ j p q ne. omega arith))
