-- ===== src/Expr/Normalize/Pads.antt =====
-- The nulls that `NormalizeTo` of expr/normalize.go puts in front.
use native.Mathlib.Nat.{div-add-mod', mod-lt, mul-le-mul_right}
use metrictank.Common.{
  ℕ, suc, ◌+◌, ◌-◌, ◌*◌, ◌/◌, ◌^◌, ◌≤◌, ◌<◌, ◌≡◌, refl, ap, ◌∙◌, List, [], ◌∷◌, some, arith, dec_lt,
  ltb, true, false,
}
use metrictank.Common.Words.{add32}
use metrictank.Schema.{Point}
use metrictank.Batch.{BatchOps}
use metrictank.Api.Fix.{align_forward}
use metrictank.Api.Fix.Align.{multiples_below, align_forward-eq-mul}
use metrictank.Expr.Normalize.{Series, pads_from, pads, first_pad, normalize_points, normalize_to}

-- The end of the group of `first`, and the first timestamp of that group.
abbrev pub group_end : ℕ → ℕ → ℕ
group_end first interval = multiples_below first interval * interval

abbrev pub group_start : ℕ → ℕ → ℕ → ℕ
group_start first in_interval interval = group_end first interval - interval + in_interval

module _ (first in_interval interval : ℕ) (pos : 0 < in_interval) (le : in_interval ≤ interval)
    (fits : first + interval < 2 ^ 32)
    (before : group_start first in_interval interval < first) where
  up : 0 < interval
  up = omega (arith, pos, le)

  reaches : first ≤ group_end first interval
  reaches = let n = first + interval - 1 in omega (arith, div-add-mod' n interval, mod-lt n up, up)

  below : group_end first interval < first + interval
  below = let n = first + interval - 1 in omega (arith, div-add-mod' n interval, up)

  whole_group : interval ≤ group_end first interval
  whole_group = elim (dec_lt 0 (multiples_below first interval)) [
    | yes h ↦
        let one : 1 * interval ≤ multiples_below first interval * interval =
          mul-le-mul_right interval h in
        omega (arith, one)
    | no h ↦
        let z : multiples_below first interval ≡ 0 = omega (arith, h) in
        let e : group_end first interval ≡ 0 * interval = ap (λ m. m * interval) z in
        absurd (omega (arith, e, reaches, before, pos))
  ]

  starts : first_pad first in_interval interval ≡ group_start first in_interval interval
  starts =
      let e : align_forward first interval ≡ group_end first interval =
        align_forward-eq-mul first interval up fits in
      rw e (ground (arith, whole_group, below, pos, le, fits, before))

  one_round :
      (n nan ts : ℕ)
      → ts < first
      → first ≤ ts + interval
      → pads_from (suc (suc n)) nan ts first interval ≡ some (record { val = nan; ts = ts } ∷ [])
  unfolding pads_from
  one_round n nan ts lt end =
      let e : ltb ts first ≡ true = ground (arith, lt) in
      let f : ltb (add32 ts interval) first ≡ false = ground (arith, lt, end, fits) in
      rw (e, f) refl

  one_pad :
      (nan : ℕ)
      → pads nan first in_interval interval
        ≡ some (record { val = nan; ts = group_start first in_interval interval } ∷ [])
  unfolding pads
  one_pad nan =
      ap (λ ts. pads_from (suc (suc (first / interval))) nan ts first interval) starts
      ∙ one_round (first / interval) nan (group_start first in_interval interval) before
          (omega (arith, reaches, below, pos, le))

-- Where the first point of a series is behind the start of its group, `NormalizeTo` puts exactly one
-- null in front of it, at the start of the group, however many points of the group there are
-- between the two; what follows is consolidated as if none were missing. The interval is at least
-- that of the series, which is not 0, and nothing wraps.
pub normalize_to-pads_once :
    (ops : BatchOps) (s : Series) (interval : ℕ) (p : Point) (ps : List Point)
    → s.datapoints ≡ p ∷ ps
    → 0 < s.interval
    → s.interval ≤ interval
    → p.ts + interval < 2 ^ 32
    → group_start p.ts s.interval interval < p.ts
    → normalize_to ops s interval
      ≡ normalize_points ops s interval
          (record { val = ops.nan; ts = group_start p.ts s.interval interval } ∷ p ∷ ps)
unfolding normalize_to
normalize_to-pads_once ops s interval p ps e pos le fits before =
    rw (e, one_pad p.ts s.interval interval pos le fits before ops.nan) refl
