-- ===== src/Mdata/Reorder/Window.antt =====
-- The points of a run of slots, oldest first, and what the loops of the reorder buffer do to them.
-- Positions are unreduced: slot `k % length buf` is meant.
use native.Mathlib.Nat.{mod-lt, add-mod_right}
use metrictank.Common.{
  ℕ, zero, suc, ◌+◌, ◌%◌, ◌≤◌, ◌<◌, ◌≡◌, ◌≢◌, refl, sym, ap, ap₂, ◌∙◌, inl, inr, List, [], ◌∷◌,
  ◌++◌, length, set, arith, ◌==◌, if◌then◌else◌, append-nil, append_assoc, Bool-cases, dec_lt,
  length-set, get_or-set_self, get_or-set_ne,
}
use metrictank.Common.Ring.{mod-ne, mod-suc-mod}
use metrictank.Schema.{Point}
use metrictank.Mdata.Reorder.{at, zero_point, cleared, purge, get_loop}

abbrev pub keep : Point → List Point → List Point
keep p ps = if p.ts == 0 then ps else p ∷ ps

-- The points of the `n` slots from position `k` on.
abbrev pub window : List Point → ℕ → ℕ → List Point
window buf k zero = []
window buf k (suc n) = keep (at buf (k % length buf)) (window buf (k + 1) n)

keep-append : (p : Point) (xs ys : List Point) → keep p (xs ++ ys) ≡ keep p xs ++ ys
keep-append p xs ys = ground arith

pub window-add :
    (buf : List Point) (k m n : ℕ) → window buf k (m + n) ≡ window buf k m ++ window buf (k + m) n
window-add buf k zero n =
    let e : k + 0 ≡ k = omega arith in let z : 0 + n ≡ n = omega arith in rw (e, z)
window-add buf k (suc m) n =
    let e : suc m + n ≡ suc (m + n) = omega arith in
    let z : k + suc m ≡ k + 1 + m = omega arith in
    rw (e, z, window-add buf (k + 1) m n)
      (keep-append (at buf (k % length buf)) (window buf (k + 1) m) (window buf (k + 1 + m) n))

-- Only the slots count, not the name of the position.
pub window-mod :
    (buf : List Point) (k j n : ℕ)
    → k % length buf ≡ j % length buf
    → window buf k n ≡ window buf j n
window-mod buf k j zero e = refl
window-mod buf k j (suc n) e = rw (
  e,
  window-mod buf (k + 1) (j + 1) n (
      sym (mod-suc-mod (length buf) k)
      ∙ ap (λ i. (i + 1) % length buf) e
      ∙ mod-suc-mod (length buf) j),
)

-- Windows of buffers that agree on their slots.
pub window-ext :
    (a b : List Point) (k n : ℕ)
    → length a ≡ length b
    → ((j : ℕ) → k ≤ j → j < k + n → at a (j % length b) ≡ at b (j % length b))
    → window a k n ≡ window b k n
window-ext a b k zero l h = refl
window-ext a b k (suc n) l h = rw (
  l,
  h k (omega arith) (omega arith),
  window-ext a b (k + 1) n l (λ j p q. h j (omega arith) (omega arith)),
)

-- A run of empty slots.
pub window-nil :
    (a : List Point) (k n : ℕ)
    → ((j : ℕ) → k ≤ j → j < k + n → (at a (j % length a)).ts ≡ 0)
    → window a k n ≡ []
window-nil a k zero h = refl
window-nil a k (suc n) h = ground (
  arith,
  h k (omega arith) (omega arith),
  window-nil a (k + 1) n (λ j p q. h j (omega arith) (omega arith)),
)

-- Writing a point just past a window extends it by that point.
pub window-set :
    (buf : List Point) (k n : ℕ) (p : Point)
    → suc n ≤ length buf
    → p.ts ≢ 0
    → window (set buf ((k + n) % length buf) p) k (suc n) ≡ window buf k n ++ p ∷ []
window-set buf k n p h ne =
    ap (window (set buf ((k + n) % length buf) p) k) {x = suc n} {y = n + 1} (omega arith)
    ∙ window-add _ k n 1
    ∙ (ap₂ ◌++◌ before after)
  where
    before : window (set buf ((k + n) % length buf) p) k n ≡ window buf k n
    before = window-ext _ buf k n (length-set buf _ p) λ j a b.
        get_or-set_ne buf _ _ p zero_point
          (λ eq. mod-ne (length buf) j (k + n) b (omega arith) (sym eq))

    after : window (set buf ((k + n) % length buf) p) (k + n) 1 ≡ p ∷ []
    after = ground (
      arith,
      length-set buf ((k + n) % length buf) p,
      get_or-set_self buf ((k + n) % length buf) p zero_point,
      mod-lt (k + n) {m = length buf},
    )

-- What the purge loop yields: the points of the slots it visits, and the same buffer with those
-- slots empty.
pub length-purge : (n i : ℕ) (buf res : List Point) → length (purge n i buf res).1 ≡ length buf
unfolding purge
length-purge zero i buf res = refl
length-purge (suc n) i buf res = ground (
  arith,
  length-purge n ((i + 1) % length buf) buf res,
  length-purge n ((i + 1) % length buf) (set buf i (cleared (at buf i))) (res ++ at buf i ∷ []),
  length-set buf i (cleared (at buf i)),
)

purge_step :
    (n k : ℕ) (buf res : List Point)
    → suc n ≤ length buf
    → (b : List Point) × (purge (suc n) (k % length buf) buf res
        ≡ purge n ((k + 1) % length b) b (res ++ keep (at buf (k % length buf)) []))
      × (length b ≡ length buf)
      × ((at b (k % length buf)).ts ≡ 0)
      × ((j : ℕ) → k < j → j < k + length buf → at b (j % length buf) ≡ at buf (j % length buf))
unfolding purge
purge_step n k buf res h = elim (Bool-cases ((at buf (k % length buf)).ts == 0)) [
  | inl e ↦ (buf, rw (e, mod-suc-mod (length buf) k, append-nil), refl, ground arith, λ j p q. refl)
  | inr e ↦ (
    set buf (k % length buf) (cleared (at buf (k % length buf))),
    rw (e, mod-suc-mod (length buf) k, length-set),
    length-set buf _ _,
    ap (λ (p : Point). p.ts)
        (get_or-set_self buf (k % length buf) _ zero_point (mod-lt k (omega arith))),
    λ j p q. get_or-set_ne buf _ _ _ zero_point (mod-ne (length buf) k j p q),
  )
]

pub purge-window :
    (n k : ℕ) (buf res : List Point)
    → n ≤ length buf
    → (purge n (k % length buf) buf res).0 ≡ res ++ window buf k n
unfolding purge
purge-window zero k buf res h = rw append-nil
purge-window (suc n) k buf res h =
    let (b, e, l, z, same) = purge_step n k buf res h in
    ap (λ r. r.0) e
    ∙ purge-window n (k + 1) b (res ++ keep (at buf (k % length buf)) []) (omega arith)
    ∙ rw (window-ext b buf (k + 1) n l (λ j p q. same j (omega arith) (omega arith)), append_assoc)
        (ap (◌++◌ res) (sym (keep-append (at buf (k % length buf)) [] (window buf (k + 1) n))))

pub purge_untouched :
    (n k j : ℕ) (buf res : List Point)
    → k + n ≤ j
    → j < k + length buf
    → at (purge n (k % length buf) buf res).1 (j % length buf) ≡ at buf (j % length buf)
unfolding purge
purge_untouched zero k j buf res p q = refl
purge_untouched (suc n) k j buf res p q =
    let (b, e, l, z, same) = purge_step n k buf res (omega arith) in
    ap (λ r. at r.1 (j % length buf)) e
    ∙ rw (← l) (purge_untouched n (k + 1) j b _ (omega arith) (omega arith))
    ∙ same j (omega arith) q

untouched_first :
    (n k : ℕ) (b res : List Point)
    → n < length b
    → at (purge n ((k + 1) % length b) b res).1 (k % length b) ≡ at b (k % length b)
untouched_first n k b res h =
    rw (← round) (purge_untouched n (k + 1) (k + length b) b res (omega arith) (omega arith))
  where
    round : (k + length b) % length b ≡ k % length b
    round = add-mod_right k (length b)

pub purge_cleared :
    (n k j : ℕ) (buf res : List Point)
    → n ≤ length buf
    → k ≤ j
    → j < k + n
    → (at (purge n (k % length buf) buf res).1 (j % length buf)).ts ≡ 0
unfolding purge
purge_cleared zero k j buf res h p q = absurd (omega arith)
purge_cleared (suc n) k j buf res h p q =
    let (b, e, l, z, same) = purge_step n k buf res h in
    ap (λ r. (at r.1 (j % length buf)).ts) e ∙ elim (dec_lt k j) [
      | yes lt ↦ rw (← l) (purge_cleared n (k + 1) j b _ (omega arith) (omega arith) (omega arith))
      | no ge ↦
          let here : j ≡ k = omega arith in
          rw (here, ← l) (ap (λ (x : Point). x.ts) (untouched_first n k b _ (omega arith)) ∙ rw l z)
    ]

-- `Get`'s loop lists the slots up to the newest.
pub get_loop-window :
    (n k : ℕ) (buf res : List Point)
    → suc n ≤ length buf
    → get_loop (suc n) buf ((k + n) % length buf) (k % length buf) res ≡ res ++ window buf k (suc n)
unfolding get_loop
get_loop-window zero k buf res h =
    let e : k + 0 ≡ k = omega arith in ground (arith, e, append-nil res)
get_loop-window (suc n) k buf res h =
    let e : k + suc n ≡ k + 1 + n = omega arith in
    let p = at buf (k % length buf) in
    ground (
      arith,
      mod-ne (length buf) k (k + suc n),
      mod-suc-mod (length buf) k,
      ap (λ i. get_loop (suc n) buf (i % length buf) ((k + 1) % length buf) (res ++ keep p [])) e,
      get_loop-window n (k + 1) buf (res ++ keep p []) (omega arith),
      append-nil res,
      append_assoc res (keep p []) (window buf (k + 1) (suc n)),
    )
