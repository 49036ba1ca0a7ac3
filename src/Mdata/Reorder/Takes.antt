-- ===== src/Mdata/Reorder/Takes.antt =====
-- The ways in which `ReorderBuffer.Add` takes a point.
use native.Mathlib.Nat.{mul-le-mul_right}
use metrictank.Common.{
  ℕ, ◌+◌, ◌*◌, ◌/◌, ◌≤◌, ◌<◌, ◌≡◌, ◌≢◌, refl, sym, ap, ◌∙◌, inl, inr, List, [], set, arith, true,
  false, Bool-cases, get_or-set_self, get_or-set_ne, dec_lt, ℕ_discrete, subst,
}
use metrictank.Common.Words.{u32_mod}
use metrictank.Schema.{Point}
use metrictank.Mdata.Errors.{ok}
use metrictank.Mdata.Reorder.{
  ReorderBuffer, at, cap, zero_point, advance, index_of, is_too_old, add_at, new,
}
use metrictank.Mdata.Reorder.Advance.{advance-IsValid}
use metrictank.Mdata.Reorder.Invariant.{
  IsValid, Placed, newest_ts, written, written-IsValid, lt_of_buckets, same_round, index_of-lt,
}

pub div-le : (i a b : ℕ) → 0 < i → a / i * i ≡ a → b / i * i ≡ b → a ≤ b → a / i ≤ b / i
div-le i a b pos ha hb le = elim (dec_lt (b / i) (a / i)) [
  | yes lt ↦ absurd (omega (arith, lt_of_buckets i b a pos hb ha lt))
  | no ge ↦ omega arith
]

-- Not too old: less than a window behind the newest point.
pub in_window_of :
    (rob : ReorderBuffer) (ts : ℕ)
    → IsValid rob
    → 0 < ts
    → ts / rob.interval * rob.interval ≡ ts
    → ts ≤ newest_ts rob
    → is_too_old rob ts ≡ false
    → newest_ts rob / rob.interval < ts / rob.interval + cap rob
unfolding is_too_old
in_window_of rob ts v pos al le e =
    let near : newest_ts rob < ts + cap rob * rob.interval =
      ground (arith, v.fits, v.newest_bounded) in
    buckets rob.interval (cap rob) (newest_ts rob / rob.interval) (ts / rob.interval)
      (rw (v.newest_aligned, al) near)
  where
    buckets : (i l a b : ℕ) → a * i < b * i + l * i → a < b + l
    buckets i l a b h = elim (dec_lt a (b + l)) [
      | yes lt ↦ lt
      | no ge ↦ absurd (omega (arith, mul-le-mul_right {m = b + l} {n = a} i (omega arith)))
    ]

-- The three ways in which `Add` takes a point: ahead of all others, over a point of the same
-- timestamp, or into a free slot of the window.
pub data Takes (rob : ReorderBuffer) (ts val : ℕ) (res : List Point) (rob' : ReorderBuffer)
    : Type 0 where
  ahead : newest_ts rob < ts → advance rob ts val ≡ (res, rob') → Takes rob ts val res rob'
  over :
      (at rob.buf (index_of rob ts)).ts ≡ ts
      → rob.allow_update ≡ true
      → res ≡ []
      → rob' ≡ written rob ts val
      → Takes rob ts val res rob'
  into :
      (at rob.buf (index_of rob ts)).ts ≢ ts
      → ts ≤ newest_ts rob
      → is_too_old rob ts ≡ false
      → res ≡ []
      → rob' ≡ written rob ts val
      → Takes rob ts val res rob'

pub add_at-Takes :
    (rob rob' : ReorderBuffer) (ts val : ℕ) (res : List Point)
    → add_at rob ts val ≡ ok (res, rob')
    → Takes rob ts val res rob'
unfolding add_at
add_at-Takes rob rob' ts val res e = elim (Bool-cases (is_too_old rob ts)) [
  | inl old ↦ ground arith
  | inr new ↦ elim (ℕ_discrete (at rob.buf (index_of rob ts)).ts ts) [
    | yes same ↦ over same (ground arith) (ground arith) (ground arith)
    | no other ↦ elim (dec_lt (newest_ts rob) ts) [
      | yes lt ↦ ahead lt (ground arith)
      | no ge ↦ into other (omega arith) new (ground arith) (ground arith)
    ]
  ]
]

pub into-ne-newest :
    (rob : ReorderBuffer) (ts : ℕ)
    → IsValid rob
    → 0 < ts
    → ts / rob.interval * rob.interval ≡ ts
    → ts ≤ newest_ts rob
    → is_too_old rob ts ≡ false
    → (at rob.buf (index_of rob ts)).ts ≢ ts
    → index_of rob ts ≢ rob.newest
unfolding index_of
into-ne-newest rob ts v pos al le win other e =
    other (rw e (sym (sym al ∙ ap (λ q. q * rob.interval) bucket ∙ v.newest_aligned)))
  where
    bucket : ts / rob.interval ≡ newest_ts rob / rob.interval
    bucket =
        same_round (cap rob) (ts / rob.interval) (newest_ts rob / rob.interval)
          (omega (
            arith,
            v.nonempty,
            div-le rob.interval ts (newest_ts rob) v.interval_pos al v.newest_aligned le,
          ))
          (in_window_of rob ts v pos al le win) (e ∙ sym v.newest_slot)

over-newest_ts :
    (rob : ReorderBuffer) (ts val : ℕ)
    → IsValid rob
    → (at rob.buf (index_of rob ts)).ts ≡ ts
    → newest_ts (written rob ts val) ≡ newest_ts rob
over-newest_ts rob ts val v same = elim (ℕ_discrete (index_of rob ts) rob.newest) [
  | yes e ↦
      ap (λ k. (at (set rob.buf (index_of rob ts) (record { val = val; ts = ts })) k).ts) (sym e)
      ∙ ap (λ (p : Point). p.ts)
          (get_or-set_self rob.buf (index_of rob ts) (record { val = val; ts = ts }) zero_point
            (index_of-lt rob ts v.nonempty))
      ∙ sym same
      ∙ ap (λ k. (at rob.buf k).ts) e
  | no ne ↦
      ap (λ (p : Point). p.ts)
        (get_or-set_ne rob.buf (index_of rob ts) rob.newest (record { val = val; ts = ts })
          zero_point ne)
]

-- A point that `Add` takes, on a boundary, leaves a valid buffer.
pub add_at-IsValid :
    (rob rob' : ReorderBuffer) (ts val : ℕ) (res : List Point)
    → IsValid rob
    → 0 < ts
    → ts < u32_mod
    → ts / rob.interval * rob.interval ≡ ts
    → Takes rob ts val res rob'
    → IsValid rob'
add_at-IsValid rob rob' ts val res v pos lt al (ahead newer e) =
    subst IsValid (ap (λ r. r.1) e) (advance-IsValid rob ts val v al lt newer)
add_at-IsValid rob rob' ts val res v pos lt al (over same _ _ e) = rw e (
    written-IsValid rob ts val v
      (subst (Placed rob.interval (cap rob) (newest_ts rob) (index_of rob ts)) same
        (v.slots (index_of rob ts) (index_of-lt rob ts v.nonempty) (λ z. omega arith)))
      (over-newest_ts rob ts val v same))
add_at-IsValid rob rob' ts val res v pos lt al (into other le new _ e) = rw e (
    written-IsValid rob ts val v
      (record {
        aligned = al;
        in_slot = unfold index_of in refl;
        le_top = div-le rob.interval ts (newest_ts rob) v.interval_pos al v.newest_aligned le;
        in_window = in_window_of rob ts v pos al le new;
      })
      (ap (λ (p : Point). p.ts)
        (get_or-set_ne rob.buf (index_of rob ts) rob.newest _ zero_point
          (into-ne-newest rob ts v pos al le new other))))
