-- ===== src/Api/Target/Context.antt =====
-- `newRequestContext` of api/dataprocessor.go: its range holds whole groups of slots.
use native.Mathlib.Nat.{mul-le-mul_right, le-div_iff_mul-le, div-mul-le_self}
use metrictank.Common.{
  ℕ, ◌+◌, ◌-◌, ◌*◌, ◌%◌, ◌^◌, ◌≤◌, ◌<◌, ◌≡◌, ◌⊎◌, inl, inr, refl, sym, ap, ◌∙◌, some, ltb, ◌==◌,
  false, arith, Bool-cases, subst,
}
use metrictank.Common.Words.{add32, sub32, mul32}
use metrictank.Schema.Archive.{Method, new_archive}
use metrictank.Consolidation.{Consolidator}
use metrictank.Consolidation
use metrictank.Mdata.AggMetric.{◌>>=◌}
use metrictank.Api.Fix.{align_forward, align_backward}
use metrictank.Api.Fix.Align.{align_forward-eq-mul}
use metrictank.Api.Request.{Req}
use metrictank.Api.Target.{RequestContext, archive_context, new_request_context}
use metrictank.Api.Target.Lower.{
  slot_of, lower, multiples_below-slot_of, lower-le, align_backward-lower, slot_of-lower,
  slot_of-lower_small,
}

-- A planned request: its points are consolidated in groups of `agg_num`, and its range is not empty
-- and ends an interval before 2^32.
pub record Planned (req : Req) : Type 0 where
  pub some_interval : 0 < req.arch_interval
  pub some_points : 0 < req.agg_num
  pub out_lem : req.out_interval ≡ req.agg_num * req.arch_interval
  pub after_zero : 0 < req.from
  pub ordered : req.from < req.to
  pub from_fits : req.from + req.out_interval < 2 ^ 32
  pub to_fits : req.to + req.out_interval ≤ 2 ^ 32

-- Where the data for a consolidator is read: raw, or an archive that it has.
abbrev pub Stored : Req → Consolidator → Type 0
Stored req cons = (req.archive ≡ 0) ⊎ ((m : Method) × (Consolidation.archive cons ≡ some m))

-- A timestamp of the range that is fetched, for the one that is asked for.
pub record Covers (req : Req) (asked fetched : ℕ) : Type 0 where
  pub above_zero : 0 < fetched
  pub within : fetched ≤ asked
  pub slot : slot_of fetched req.arch_interval ≡ slot_of asked req.out_interval * req.agg_num

-- The range for the archive is in the same intervals of the output.
record Keeps (req : Req) (asked fetched : ℕ) : Type 0 where
  above_zero : 0 < fetched
  within : fetched ≤ asked
  slot_out : slot_of fetched req.out_interval ≡ slot_of asked req.out_interval

module _ (req : Req) (p : Planned req) where
  pub interval-le : req.arch_interval ≤ req.out_interval
  interval-le =
      let one : 1 * req.arch_interval ≤ req.agg_num * req.arch_interval =
        mul-le-mul_right req.arch_interval p.some_points in
      omega (arith, p.out_lem, one)

  some_end : 0 < req.to
  some_end = omega (arith, p.ordered)

  -- The ends of two timestamps keep their order.
  lower_le-lower : (x y i : ℕ) → 0 < i → x ≤ y → lower x i ≤ lower y i
  lower_le-lower x y i pos h =
      let slots : slot_of x i ≤ slot_of y i =
        (le-div_iff_mul-le pos).1 (omega (arith, div-mul-le_self (x - 1) i, h)) in
      let ends : slot_of x i * i ≤ slot_of y i * i = mul-le-mul_right i slots in omega (arith, ends)

  raw_end :
      (x : ℕ)
      → 0 < x
      → x + req.out_interval ≤ 2 ^ 32
      → add32 (align_backward x req.arch_interval) 1 ≡ lower x req.arch_interval
  raw_end x h fits =
      align_backward-lower x req.arch_interval h p.some_interval
        (omega (arith, interval-le, p.some_interval, fits)) (omega (arith, interval-le, h, fits))

  lower-Keeps :
      (x : ℕ)
      → 0 < x
      → x + req.out_interval ≤ 2 ^ 32
      → Keeps req x (add32 (align_backward x req.arch_interval) 1)
  lower-Keeps x h fits =
      let e = raw_end x h fits in
      record {
        above_zero = rw e (omega arith);
        within = rw e (lower-le x req.arch_interval h);
        slot_out =
            rw (e, p.out_lem) (slot_of-lower_small x req.agg_num req.arch_interval p.some_interval);
      }

  archive_context-Keeps :
      (cons : Consolidator)
      → Stored req cons
      → (rc : RequestContext) × (archive_context req cons ≡ some rc)
        × Keeps req req.from rc.from
        × Keeps req req.to rc.to
        × (rc.from ≤ rc.to)
  unfolding archive_context
  archive_context-Keeps cons stored = elim (Bool-cases (req.archive == 0)) [
    | inl e ↦ (
      raw,
      rw e refl,
      lower-Keeps req.from p.after_zero (omega (arith, p.from_fits)),
      lower-Keeps req.to some_end p.to_fits,
      raw_ordered,
    )
    | inr e ↦ elim stored [
      | inl z ↦ absurd (ground arith)
      | inr (m, has) ↦ (
        record {
          cons = cons;
          from = req.from;
          to = req.to;
          am_key = record { mkey = req.mkey; archive = new_archive m req.arch_interval };
        },
        rw (e, has, ◌>>=◌) refl,
        record { above_zero = p.after_zero; within = omega arith; slot_out = refl },
        record { above_zero = some_end; within = omega arith; slot_out = refl },
        omega (arith, p.ordered),
      )
    ]
  ]
    where
      raw : RequestContext
      raw = record {
        cons = cons;
        from = add32 (align_backward req.from req.arch_interval) 1;
        to = add32 (align_backward req.to req.arch_interval) 1;
        am_key = record { mkey = req.mkey; archive = 0 };
      }

      raw_ordered : raw.from ≤ raw.to
      raw_ordered =
          rw
            (
              raw_end req.from p.after_zero (omega (arith, p.from_fits)),
              raw_end req.to some_end p.to_fits,
            )
            (lower_le-lower req.from req.to req.arch_interval p.some_interval
              (omega (arith, p.ordered)))

  -- Moved back to the end of an interval of the output.
  lower-Covers : (asked x : ℕ) → Keeps req asked x → Covers req asked (lower x req.out_interval)
  lower-Covers asked x k = record {
    above_zero = omega arith;
    within = omega (arith, lower-le x req.out_interval k.above_zero, k.within);
    slot =
        subst (λ o. slot_of (lower x o) req.arch_interval ≡ slot_of x o * req.agg_num)
          (sym p.out_lem) (slot_of-lower x req.agg_num req.arch_interval p.some_interval)
        ∙ ap (λ t. t * req.agg_num) k.slot_out;
  }

  -- With one point in a group, the range of the archive will do.
  same-Covers : (asked x : ℕ) → req.agg_num ≡ 1 → Keeps req asked x → Covers req asked x
  same-Covers asked x one k =
      let same : req.arch_interval ≡ req.out_interval =
        sym (p.out_lem ∙ ap (λ t. t * req.arch_interval) one ∙ omega arith) in
      record {
        above_zero = k.above_zero;
        within = k.within;
        slot =
            ap (λ o. slot_of x o) same
            ∙ k.slot_out
            ∙ sym (ap (λ t. slot_of asked req.out_interval * t) one ∙ omega arith);
      }

  -- The start of the first group, for the first interval of the output.
  rewound :
      (asked x : ℕ)
      → asked + req.out_interval < 2 ^ 32
      → Keeps req asked x
      → (ltb (align_forward x req.out_interval) (mul32 req.agg_num req.arch_interval) ≡ false)
        × (add32 (sub32 (align_forward x req.out_interval) (mul32 req.agg_num req.arch_interval)) 1
            ≡ lower x req.out_interval)
  rewound asked x fits k =
      let out_pos : 0 < req.out_interval = omega (arith, interval-le, p.some_interval) in
      let b : align_forward x req.out_interval
          ≡ slot_of x req.out_interval * req.out_interval + req.out_interval =
        align_forward-eq-mul x req.out_interval out_pos (omega (arith, fits, k.within))
        ∙ ap (λ t. t * req.out_interval)
            (multiples_below-slot_of x req.out_interval k.above_zero out_pos)
        ∙ omega arith in
      let r : mul32 req.agg_num req.arch_interval ≡ req.out_interval =
        ap (λ t. t % 2 ^ 32) (sym p.out_lem) ∙ omega (arith, fits) in
      let le = lower-le x req.out_interval k.above_zero in
      rw (b, r) (ground arith, omega (arith, le, fits, k.within))

  -- For a planned request, and data that is stored, `newRequestContext` succeeds, and the range
  -- that it fetches holds whole groups of slots.
  pub new_request_context-Covers :
      (cons : Consolidator)
      → Stored req cons
      → (rc : RequestContext) × (new_request_context req cons ≡ some rc)
        × Covers req req.from rc.from
        × Covers req req.to rc.to
        × (rc.from ≤ rc.to)
  unfolding new_request_context
  new_request_context-Covers cons stored =
      let (rc, e, from, to, le) = archive_context-Keeps cons stored in
      elim (Bool-cases (ltb 1 req.agg_num)) [
        | inr one ↦
            let one' : req.agg_num ≡ 1 = ground (arith, p.some_points) in
            (
              rc,
              rw (e, ◌>>=◌, one) refl,
              same-Covers req.from rc.from one' from,
              same-Covers req.to rc.to one' to,
              le,
            )
        | inl more ↦
            let (early, start) = rewound req.from rc.from p.from_fits from in
            let out_pos : 0 < req.out_interval = omega (arith, interval-le, p.some_interval) in
            let end : add32 (align_backward rc.to req.out_interval) 1
                ≡ lower rc.to req.out_interval =
              align_backward-lower rc.to req.out_interval to.above_zero out_pos
                (omega (arith, to.within, p.to_fits, out_pos)) (omega (arith, p.from_fits)) in
            (
              record rc {
                from = lower rc.from req.out_interval;
                to = lower rc.to req.out_interval;
              },
              rw (e, ◌>>=◌, more, early, start, end) refl,
              lower-Covers req.from rc.from from,
              lower-Covers req.to rc.to to,
              lower_le-lower rc.from rc.to req.out_interval out_pos le,
            )
      ]
