-- ===== src/Mdata/Reorder/Advance.antt =====
-- The branch of `ReorderBuffer.Add` for a point ahead of the newest, and the invariant.
use native.Mathlib.Nat.{mod-eq_of_lt}
use metrictank.Common.{
  ℕ, ◌+◌, ◌-◌, ◌*◌, ◌/◌, ◌%◌, ◌≤◌, ◌<◌, ◌≡◌, ◌≢◌, ◌⊎◌, refl, ap, ◌∙◌, List, [], length, set, arith,
  length-set, get_or-set_self, get_or-set_ne, dec_lt, ℕ_discrete, subst,
}
use metrictank.Common.Words.{u32_mod}
use metrictank.Common.Ring.{round_position}
use metrictank.Schema.{Point}
use metrictank.Mdata.Reorder.{
  ReorderBuffer, at, cap, zero_point, purge, advance, flush_count, index_of,
}
use metrictank.Mdata.Reorder.Window.{length-purge, purge_untouched, purge_cleared}
use metrictank.Mdata.Reorder.Invariant.{
  newest_ts, Placed, IsValid, div-lt, flush_count-cases, index_of-lt, position_bucket,
}

-- A slot that the purge left: its point is in the window of the newer timestamp too.
still-Placed :
    (rob : ReorderBuffer) (ts f i : ℕ)
    → IsValid rob
    → newest_ts rob / rob.interval ≤ ts / rob.interval
    → f ≤ cap rob
    → (f ≡ cap rob) ⊎ (newest_ts rob / rob.interval + f ≡ ts / rob.interval)
    → i < cap rob
    → let left = (purge f ((rob.newest + 1) % cap rob) rob.buf []).1 in
      (at left i).ts ≢ 0 → Placed rob.interval (cap rob) ts i (at left i).ts
still-Placed rob ts f i v le fl place h ne =
    let (m, lo, hi, e) = round_position (cap rob) (rob.newest + 1) i v.nonempty in
    let slot : m % cap rob ≡ i = e ∙ mod-eq_of_lt h in
    elim (dec_lt m (rob.newest + 1 + f)) [
      | yes gone ↦
          absurd (ne (rw (← slot) (purge_cleared f (rob.newest + 1) m rob.buf [] fl lo gone)))
      | no kept ↦
          let same : at (purge f ((rob.newest + 1) % cap rob) rob.buf []).1 i ≡ at rob.buf i =
            rw (← slot) (purge_untouched f (rob.newest + 1) m rob.buf [] (omega arith) hi) in
          rw same (moved m (v.slots i h (rw same at ne)) (rw same at ne) slot (omega arith) hi)
    ]
  where
    moved :
        (m : ℕ)
        → Placed rob.interval (cap rob) (newest_ts rob) i (at rob.buf i).ts
        → (at rob.buf i).ts ≢ 0
        → m % cap rob ≡ i
        → rob.newest + 1 + f ≤ m
        → m < rob.newest + 1 + cap rob
        → Placed rob.interval (cap rob) ts i (at rob.buf i).ts
    moved m pl ne slot lo hi = record {
      aligned = pl.aligned;
      in_slot = pl.in_slot;
      le_top = omega arith;
      in_window = omega (arith, around);
    }
      where
        around :
            (at rob.buf i).ts / rob.interval + cap rob
            ≡ newest_ts rob / rob.interval + (m - rob.newest)
        around = rw slot at (position_bucket rob m v (omega arith) hi (rw slot ne))

pub advance-IsValid :
    (rob : ReorderBuffer) (ts val : ℕ)
    → IsValid rob
    → ts / rob.interval * rob.interval ≡ ts
    → ts < u32_mod
    → newest_ts rob < ts
    → IsValid (advance rob ts val).1
unfolding advance
advance-IsValid rob ts val v al lt newer = record {
  interval_pos = v.interval_pos;
  nonempty = rw len v.nonempty;
  fits = rw len v.fits;
  newest_bounded = rw top lt;
  newest_slot = rw (top, len) refl;
  newest_aligned = rw top al;
  slots = λ i h ne. rw (top, len) (placed i (rw (← len) h) ne);
}
  where
    p : Point
    p = record { val = val; ts = ts }

    fs :
        (0 < flush_count rob ts)
        × (flush_count rob ts ≤ cap rob)
        × ((flush_count rob ts ≡ cap rob)
            ⊎ (newest_ts rob / rob.interval + flush_count rob ts ≡ ts / rob.interval))
    fs = flush_count-cases rob ts v al lt newer

    left : List Point
    left = (purge (flush_count rob ts) ((rob.newest + 1) % cap rob) rob.buf []).1

    index : ℕ
    index = index_of rob ts

    len_left : length left ≡ cap rob
    len_left = length-purge (flush_count rob ts) ((rob.newest + 1) % cap rob) rob.buf []

    len : length (set left index p) ≡ cap rob
    len = length-set left index p ∙ len_left

    at_index : at (set left index p) index ≡ p
    at_index = get_or-set_self left index p zero_point (rw len_left (index_of-lt rob ts v.nonempty))

    top : newest_ts (advance rob ts val).1 ≡ ts
    top = ap (λ (x : Point). x.ts) at_index

    placed :
        (i : ℕ)
        → i < cap rob
        → (at (set left index p) i).ts ≢ 0
        → Placed rob.interval (cap rob) ts i (at (set left index p) i).ts
    placed i h ne = elim (ℕ_discrete index i) [
      | yes e ↦
          subst (λ j. Placed rob.interval (cap rob) ts j (at (set left index p) j).ts) e
            (rw at_index (record {
              aligned = al;
              in_slot = refl;
              le_top = omega arith;
              in_window = omega (arith, v.nonempty);
            }))
      | no e ↦
          let same = get_or-set_ne left index i p zero_point e in
          rw same (
            still-Placed rob ts (flush_count rob ts) i v
              (omega (arith, div-lt rob.interval (newest_ts rob) ts v.newest_aligned al newer)) fs.1
              fs.2 h (rw same at ne))
    ]
