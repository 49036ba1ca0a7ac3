-- ===== src/Mdata/Reorder/Conserve.antt =====
-- What the reorder buffer holds, in the order of `Get`, and what `Add` passes on.
use native.Mathlib.Nat.{mod-eq_of_lt, add-mod_right, mod-lt}
use metrictank.Common.{
  ℕ, suc, ◌+◌, ◌-◌, ◌/◌, ◌%◌, ◌≤◌, ◌<◌, ◌≡◌, ◌≢◌, ◌⊎◌, sym, ap, ap₂, ◌∙◌, inl, inr, List, [], ◌∷◌,
  ◌++◌, length, set, arith, append-nil, append_assoc, length-set,
}
use metrictank.Common.Ring.{mod-suc-mod, round_position}
use metrictank.Schema.{Point}
use metrictank.Mdata.Reorder.{
  ReorderBuffer, at, cap, purge, get, get_loop, advance, flush_count, index_of,
}
use metrictank.Mdata.Reorder.Window.{
  window, window-add, window-mod, window-ext, window-nil, window-set, length-purge, purge-window,
  purge_untouched, purge_cleared, get_loop-window,
}

-- `Get` lists the slots of one round, from the one after the newest.
pub get-window :
    (rob : ReorderBuffer)
    → rob.newest < cap rob
    → get rob ≡ window rob.buf (rob.newest + 1) (cap rob)
unfolding get
get-window rob h =
    let L = cap rob in
    let e : L ≡ suc (L - 1) = omega arith in
    let z : (rob.newest + 1 + (L - 1)) % L ≡ rob.newest = round in
    ap₂ (λ n i. get_loop n rob.buf i ((rob.newest + 1) % L) []) e (sym z)
    ∙ get_loop-window (L - 1) (rob.newest + 1) rob.buf [] (omega arith)
    ∙ ap (window rob.buf (rob.newest + 1)) (sym e)
  where
    round : (rob.newest + 1 + (cap rob - 1)) % cap rob ≡ rob.newest
    round =
        ap (λ k. k % cap rob) {x = rob.newest + 1 + (cap rob - 1)} {y = rob.newest + cap rob}
          (omega arith)
        ∙ add-mod_right rob.newest (cap rob)
        ∙ mod-eq_of_lt h

-- A ring whose newest slot has just been written.
window_after_set :
    (b : List Point) (index : ℕ) (p : Point)
    → index < length b
    → p.ts ≢ 0
    → window (set b index p) (index + 1) (length b) ≡ window b (index + 1) (length b - 1) ++ p ∷ []
window_after_set b index p h ne =
    let e : length b ≡ suc (length b - 1) = omega arith in
    ap (window (set b index p) (index + 1)) e
    ∙ ap (λ i. window (set b i p) (index + 1) (suc (length b - 1))) (sym z)
    ∙ window-set b (index + 1) (length b - 1) p (omega arith) ne
  where
    z : (index + 1 + (length b - 1)) % length b ≡ index
    z =
        ap (λ k. k % length b) {x = index + 1 + (length b - 1)} {y = index + length b} (omega arith)
        ∙ add-mod_right index (length b)
        ∙ mod-eq_of_lt h

module _ (buf : List Point) (k f : ℕ) (h : f ≤ length buf) where
  abbrev left : List Point
  left = (purge f (k % length buf) buf []).1

  -- What the purge leaves, seen from the slot behind it.
  left-window : window left (k + f) (length buf - f) ≡ window buf (k + f) (length buf - f)
  left-window =
      window-ext left buf (k + f) (length buf - f) (length-purge f (k % length buf) buf [])
        (λ j p q. purge_untouched f k j buf [] p (omega arith))

  left-nil : (i n : ℕ) → k ≤ i → i + n ≤ k + f → window left i n ≡ []
  left-nil i n p q = window-nil left i n λ j a b.
      ap (λ (m : ℕ). (at left (j % m)).ts) (length-purge f (k % length buf) buf [])
      ∙ purge_cleared f k j buf [] h (omega arith) (omega arith)

  -- The slots of one round but the last, if the round ends where the purge does.
  left_round : 0 < f → window left (k + f) (length buf - 1) ≡ window buf (k + f) (length buf - f)
  left_round pos =
      let l = length buf in
      let split : l - 1 ≡ l - f + (f - 1) = omega arith in
      ap (window left (k + f)) split
      ∙ window-add left (k + f) (l - f) (f - 1)
      ∙ ap₂ ◌++◌ left-window (
          window-mod left (k + f + (l - f)) k (f - 1) wrap
          ∙ left-nil k (f - 1) (omega arith) (omega arith))
      ∙ append-nil (window buf (k + f) (l - f))
    where
      wrap : (k + f + (length buf - f)) % length left ≡ k % length left
      wrap = rw (length-purge f (k % length buf) buf []) (
          ap (λ m. m % length buf) {x = k + f + (length buf - f)} {y = k + length buf} (omega arith)
          ∙ add-mod_right k (length buf))

-- The round behind the new point: the old round without the slots that were purged.
kept_round :
    (buf : List Point) (newest f index : ℕ) (h : f ≤ length buf)
    → 0 < f
    → (f ≡ length buf) ⊎ (index ≡ (newest + f) % length buf)
    → window (left buf (newest + 1) f h) (index + 1) (length buf - 1)
      ≡ window buf (newest + 1 + f) (length buf - f)
kept_round buf newest f index h pos (inl full) =
    window-nil _ (index + 1) (length buf - 1) (λ j a b. empty j)
    ∙ ap (window buf (newest + 1 + f)) {x = 0} {y = length buf - f} (omega arith)
  where
    empty :
        (j : ℕ) → (at (left buf (newest + 1) f h) (j % length (left buf (newest + 1) f h))).ts ≡ 0
    empty j =
        let (m, lo, hi, e) = round_position (length buf) (newest + 1) j (omega arith) in
        rw (length-purge f ((newest + 1) % length buf) buf [], ← e)
          (purge_cleared f (newest + 1) m buf [] h lo (omega arith))
kept_round buf newest f index h pos (inr e) =
    window-mod _ (index + 1) (newest + 1 + f) (length buf - 1) same
    ∙ left_round buf (newest + 1) f h pos
  where
    same :
        (index + 1) % length (left buf (newest + 1) f h)
        ≡ (newest + 1 + f) % length (left buf (newest + 1) f h)
    same =
        rw
          (
            length-purge f ((newest + 1) % length buf) buf [],
            e,
            mod-suc-mod (length buf) (newest + f),
          )
          (ap (λ m. m % length buf) {x = newest + f + 1} {y = newest + 1 + f} (omega arith))

-- A newer point pushes out the oldest slots: what is handed on and what stays are the points held
-- before, in order, and the new point behind them.
pub advance_conserve :
    (rob : ReorderBuffer) (ts val : ℕ)
    → rob.newest < cap rob
    → ts ≢ 0
    → 0 < flush_count rob ts
    → flush_count rob ts ≤ cap rob
    → (flush_count rob ts ≡ cap rob)
      ⊎ (index_of rob ts ≡ (rob.newest + flush_count rob ts) % cap rob)
    → let (res, rob') = advance rob ts val in
      res ++ get rob' ≡ get rob ++ record { val = val; ts = ts } ∷ []
unfolding advance
advance_conserve rob ts val h ne pos le place =
    ap₂ ◌++◌ (purge-window f k buf [] le) after
    ∙ sym (append_assoc (window buf k f) (window buf (k + f) (length buf - f)) (p ∷ []))
    ∙ ap (λ ps. ps ++ p ∷ [])
        (sym (window-add buf k f (length buf - f))
          ∙ ap (window buf k) {x = f + (length buf - f)} {y = length buf} (omega arith)
          ∙ sym (get-window rob h))
  where
    open rob use {buf, newest}

    k : ℕ
    k = newest + 1

    f : ℕ
    f = flush_count rob ts

    index : ℕ
    index = index_of rob ts

    p : Point
    p = record { val = val; ts = ts }

    b : List Point
    b = left buf k f le

    len : length b ≡ length buf
    len = length-purge f (k % length buf) buf []

    inside : index < length b
    inside = rw len (mod-lt (ts / rob.interval) (omega arith))

    after : get (advance rob ts val).1 ≡ window buf (k + f) (length buf - f) ++ p ∷ []
    after =
        get-window (advance rob ts val).1 (rw (length-set b index p) inside)
        ∙ ap (window (set b index p) (index + 1)) (length-set b index p)
        ∙ window_after_set b index p inside ne
        ∙ ap (λ ps. ps ++ p ∷ [])
            (ap (λ m. window b (index + 1) (m - 1)) len
              ∙ kept_round buf newest f index le pos place)
