-- ===== src/Mdata/Reorder/Invariant.antt =====
-- The representation invariant of the reorder buffer, by bucket numbers `ts / interval`.
use native.Mathlib.Nat.{mod-lt, mod-add-mod, mul-div_left, mul-sub, add-mod_right}
use metrictank.Common.{
  ℕ, ◌+◌, ◌-◌, ◌*◌, ◌/◌, ◌%◌, ◌≤◌, ◌<◌, ◌≡◌, ◌≢◌, ◌⊎◌, refl, sym, ap, ◌∙◌, List, length, set, arith,
  length-set, get_or-set_self, get_or-set_ne, dec_lt, ℕ_discrete, subst,
}
use metrictank.Common.Words.{u32_mod, sub32}
use metrictank.Common.Ring.{mod-ne}
use metrictank.Schema.{Point}
use metrictank.Mdata.Reorder.{ReorderBuffer, at, cap, zero_point, flush_count, index_of}

-- The timestamp of the newest point, 0 if the buffer is empty.
abbrev pub newest_ts : ReorderBuffer → ℕ
newest_ts rob = (at rob.buf rob.newest).ts

-- A timestamp `ts` in slot `i` of a buffer of `l` slots whose newest timestamp is `top`: it is on a
-- boundary, in its slot, and less than a window behind the newest.
pub record Placed (interval l top i ts : ℕ) : Type 0 where
  pub aligned : ts / interval * interval ≡ ts
  pub in_slot : (ts / interval) % l ≡ i
  pub le_top : ts / interval ≤ top / interval
  pub in_window : top / interval < ts / interval + l

pub record IsValid (rob : ReorderBuffer) : Type 0 where
  pub interval_pos : 0 < rob.interval
  pub nonempty : 0 < cap rob
  pub fits : cap rob * rob.interval < u32_mod
  pub newest_bounded : newest_ts rob < u32_mod
  pub newest_slot : (newest_ts rob / rob.interval) % cap rob ≡ rob.newest
  pub newest_aligned : newest_ts rob / rob.interval * rob.interval ≡ newest_ts rob
  pub slots :
      (i : ℕ)
      → i < cap rob
      → (at rob.buf i).ts ≢ 0
      → Placed rob.interval (cap rob) (newest_ts rob) i (at rob.buf i).ts

pub newest-lt-cap : {rob : ReorderBuffer} → IsValid rob → rob.newest < cap rob
newest-lt-cap {rob} v =
    subst (λ n. n < cap rob) v.newest_slot (mod-lt (newest_ts rob / rob.interval) v.nonempty)

-- The number of whole intervals between two boundaries.
sub-div : (i a b : ℕ) → 0 < i → a / i * i ≡ a → b / i * i ≡ b → a ≤ b → (b - a) / i ≡ b / i - a / i
sub-div i a b pos ha hb le =
    ap (λ n. n / i) {x = b - a} {y = (b / i - a / i) * i} (omega (arith, mul-sub i (b / i) (a / i)))
    ∙ mul-div_left (b / i - a / i) pos

pub lt_of_buckets : (i a b : ℕ) → 0 < i → a / i * i ≡ a → b / i * i ≡ b → a / i < b / i → a < b
lt_of_buckets i a b pos ha hb lt = grind arith

pub div-lt : (i a b : ℕ) → a / i * i ≡ a → b / i * i ≡ b → a < b → a / i < b / i
div-lt i a b ha hb lt = grind arith

-- A point that is newer than the newest purges as many slots as it is intervals ahead, or all.
pub flush_count-cases :
    (rob : ReorderBuffer) (ts : ℕ)
    → IsValid rob
    → ts / rob.interval * rob.interval ≡ ts
    → ts < u32_mod
    → newest_ts rob < ts
    → (0 < flush_count rob ts)
      × (flush_count rob ts ≤ cap rob)
      × ((flush_count rob ts ≡ cap rob)
          ⊎ (newest_ts rob / rob.interval + flush_count rob ts ≡ ts / rob.interval))
unfolding flush_count
flush_count-cases rob ts v al lt newer =
    let e : sub32 ts (newest_ts rob) ≡ ts - newest_ts rob = omega arith in
    rw e (
      rw (sub-div rob.interval (newest_ts rob) ts v.interval_pos v.newest_aligned al (omega arith))
        (ground
          (arith, div-lt rob.interval (newest_ts rob) ts v.newest_aligned al newer, v.nonempty)))

-- What `Add` yields is valid again: each branch for itself.
pub same_round : (l a b : ℕ) → a < b + l → b < a + l → a % l ≡ b % l → a ≡ b
same_round l a b p q e = elim (ℕ_discrete a b) [
  | yes eq ↦ eq
  | no ne ↦ elim (dec_lt a b) [
    | yes lt ↦ absurd (mod-ne l a b lt q e)
    | no ge ↦ absurd (mod-ne l b a (omega arith) p (sym e))
  ]
]

-- The point in slot `index` of a timestamp in the window.
here-Placed :
    (rob : ReorderBuffer) (ts : ℕ)
    → ts / rob.interval * rob.interval ≡ ts
    → ts / rob.interval ≤ newest_ts rob / rob.interval
    → newest_ts rob / rob.interval < ts / rob.interval + cap rob
    → Placed rob.interval (cap rob) (newest_ts rob) (index_of rob ts) ts
unfolding index_of
here-Placed rob ts al le win = record { aligned = al; in_slot = refl; le_top = le; in_window = win }

-- Writing a point of the window into its slot, where that is not the newest slot or the timestamp
-- is there already.
abbrev pub written : ReorderBuffer → ℕ → ℕ → ReorderBuffer
written rob ts val = record rob {
  buf = set rob.buf (index_of rob ts) (record { val = val; ts = ts });
}

pub index_of-lt : (rob : ReorderBuffer) (ts : ℕ) → 0 < cap rob → index_of rob ts < cap rob
unfolding index_of
index_of-lt rob ts h = mod-lt (ts / rob.interval) h

pub written-IsValid :
    (rob : ReorderBuffer) (ts val : ℕ)
    → IsValid rob
    → Placed rob.interval (cap rob) (newest_ts rob) (index_of rob ts) ts
    → newest_ts (written rob ts val) ≡ newest_ts rob
    → IsValid (written rob ts val)
written-IsValid rob ts val v pl top = record {
  interval_pos = v.interval_pos;
  nonempty = rw len v.nonempty;
  fits = rw len v.fits;
  newest_bounded = rw top v.newest_bounded;
  newest_slot = rw (top, len) v.newest_slot;
  newest_aligned = rw top v.newest_aligned;
  slots = λ i h ne. rw (top, len) (placed i (rw (← len) h) ne);
}
  where
    p : Point
    p = record { val = val; ts = ts }

    buf' : List Point
    buf' = set rob.buf (index_of rob ts) p

    len : length buf' ≡ cap rob
    len = length-set rob.buf (index_of rob ts) p

    placed :
        (i : ℕ)
        → i < cap rob
        → (at buf' i).ts ≢ 0
        → Placed rob.interval (cap rob) (newest_ts rob) i (at buf' i).ts
    placed i h ne = elim (ℕ_discrete (index_of rob ts) i) [
      | yes e ↦
          subst (λ j. Placed rob.interval (cap rob) (newest_ts rob) j (at buf' j).ts) e
            (rw
              (get_or-set_self rob.buf (index_of rob ts) p zero_point
                (index_of-lt rob ts v.nonempty))
              pl)
      | no e ↦
          let same = get_or-set_ne rob.buf (index_of rob ts) i p zero_point e in
          rw same (v.slots i h (rw same at ne))
    ]

-- The bucket of the point at a position of the round, counted from the newest.
pub position_bucket :
    (rob : ReorderBuffer) (m : ℕ)
    → IsValid rob
    → rob.newest + 1 ≤ m
    → m < rob.newest + 1 + cap rob
    → (at rob.buf (m % cap rob)).ts ≢ 0
    → (at rob.buf (m % cap rob)).ts / rob.interval + cap rob
      ≡ newest_ts rob / rob.interval + (m - rob.newest)
position_bucket rob m v lo hi ne =
    same_round (cap rob) (q + cap rob) (top + (m - rob.newest)) (omega (arith, pl))
      (omega (arith, pl))
      (add-mod_right q (cap rob)
        ∙ pl.in_slot
        ∙ ap (λ n. n % cap rob) {x = m} {y = rob.newest + (m - rob.newest)} (omega arith)
        ∙ ap (λ n. (n + (m - rob.newest)) % cap rob) (sym v.newest_slot)
        ∙ mod-add-mod top (cap rob) (m - rob.newest))
  where
    q : ℕ
    q = (at rob.buf (m % cap rob)).ts / rob.interval

    top : ℕ
    top = newest_ts rob / rob.interval

    pl : Placed rob.interval (cap rob) (newest_ts rob) (m % cap rob) (at rob.buf (m % cap rob)).ts
    pl = v.slots (m % cap rob) (mod-lt m v.nonempty) ne
