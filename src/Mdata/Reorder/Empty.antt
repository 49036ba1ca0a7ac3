-- ===== src/Mdata/Reorder/Empty.antt =====
-- Empty reorder buffers: a new one, and one that has been flushed.
use metrictank.Common.{
  ℕ, zero, suc, ◌*◌, ◌<◌, ◌≡◌, refl, List, [], ◌∷◌, map, replicate, arith, Bool, length-map,
  length-replicate,
}
use metrictank.Common.Words.{u32_mod}
use native.Mathlib.Nat.{zero-div, zero-mod, zero-mul}
use metrictank.Schema.{Point}
use metrictank.Mdata.Reorder.{ReorderBuffer, at, cap, zero_point, cleared, new, get, reset, flush}
use metrictank.Mdata.Reorder.Window.{window-nil}
use metrictank.Mdata.Reorder.Conserve.{get-window}
use metrictank.Mdata.Reorder.Invariant.{IsValid, newest-lt-cap}

replicate-empty : (n i : ℕ) → (at (replicate n zero_point) i).ts ≡ 0
replicate-empty zero i = refl
replicate-empty (suc n) zero = refl
replicate-empty (suc n) (suc i) = replicate-empty n i

cleared-empty : (buf : List Point) (i : ℕ) → (at (map cleared buf) i).ts ≡ 0
cleared-empty [] i = refl
cleared-empty (p ∷ ps) zero = refl
cleared-empty (p ∷ ps) (suc i) = cleared-empty ps i

-- A buffer with no point in it and the newest index at 0 is valid.
empty-IsValid :
    (rob : ReorderBuffer)
    → 0 < rob.interval
    → 0 < cap rob
    → cap rob * rob.interval < u32_mod
    → rob.newest ≡ 0
    → ((i : ℕ) → (at rob.buf i).ts ≡ 0)
    → IsValid rob
empty-IsValid rob pos some_slot fits e none_set = record {
  interval_pos = pos;
  nonempty = some_slot;
  fits = fits;
  newest_bounded = omega (arith, none_set rob.newest);
  newest_slot = rw (none_set rob.newest, zero-div, zero-mod, e);
  newest_aligned = rw (none_set rob.newest, zero-div, zero-mul);
  slots = λ i h ne. absurd (ne (none_set i));
}

empty-get : (rob : ReorderBuffer) → IsValid rob → ((i : ℕ) → (at rob.buf i).ts ≡ 0) → get rob ≡ []
empty-get rob v none_set =
    rw (get-window rob (newest-lt-cap v)) (window-nil rob.buf _ _ (λ j p q. none_set _))

-- A new buffer is valid and holds nothing, for a positive window and interval whose product is
-- below 2^32.
new-IsValid :
    (reorder_window interval : ℕ) (allow_update : Bool)
    → 0 < interval
    → 0 < reorder_window
    → reorder_window * interval < u32_mod
    → IsValid (new reorder_window interval allow_update)
      × (get (new reorder_window interval allow_update) ≡ [])
unfolding new
new-IsValid w i up pos some_slot fits = (valid, empty-get _ valid (replicate-empty w))
  where
    valid : IsValid (new w i up)
    valid =
        empty-IsValid (new w i up) pos (rw (length-replicate w zero_point) some_slot)
          (rw (length-replicate w zero_point) fits) refl (replicate-empty w)

-- `Flush` of a valid buffer returns what `Get` lists, and leaves a valid buffer of the same size that holds nothing.
flush-IsValid :
    (rob : ReorderBuffer)
    → IsValid rob
    → let (points, rob') = flush rob in
      (points ≡ get rob) × IsValid rob' × (get rob' ≡ []) × (cap rob' ≡ cap rob)
unfolding flush reset
flush-IsValid rob v =
    (refl, valid, empty-get _ valid (cleared-empty rob.buf), length-map rob.buf cleared)
  where
    valid : IsValid (reset rob)
    valid =
        empty-IsValid (reset rob) v.interval_pos (rw (length-map rob.buf cleared) v.nonempty)
          (rw (length-map rob.buf cleared) v.fits) refl (cleared-empty rob.buf)
