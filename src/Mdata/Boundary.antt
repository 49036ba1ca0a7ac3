-- ===== src/Mdata/Boundary.antt =====
-- `AggBoundary` of mdata/aggregator.go.
use native.Mathlib.Nat.{mul-mod_left, div-add-mod', mod-lt}
use metrictank.Common.{ℕ, ◌+◌, ◌-◌, ◌*◌, ◌/◌, ◌%◌, ◌≤◌, ◌<◌, ◌≡◌, arith}
use metrictank.Common.Words.{u32_mod, add32, sub32}

-- `AggBoundary`. A span of 0 panics in the source; the callers never pass one.
unfoldable pub agg_boundary : ℕ → ℕ → ℕ
agg_boundary ts span = sub32 (add32 ts span) (add32 (sub32 ts 1 % span) 1)

-- For a positive timestamp and span, where the sum does not pass 2^32, the boundary is the timestamp
-- less one, rounded down to a multiple of the span, and one span more.
pub agg_boundary-eq-mul :
    (ts span : ℕ)
    → 0 < ts
    → 0 < span
    → ts + span ≤ u32_mod
    → agg_boundary ts span ≡ ((ts - 1) / span + 1) * span
unfolding agg_boundary
agg_boundary-eq-mul ts span p s h =
    let e : sub32 ts 1 ≡ ts - 1 = omega arith in
    rw e (omega (arith, div-add-mod' (ts - 1) span, mod-lt (ts - 1) s))

-- For a positive timestamp and span, where the sum does not pass 2^32, the boundary is a multiple of
-- the span, at or after the timestamp and less than a span after it.
pub agg_boundary_bounds :
    (ts span : ℕ)
    → 0 < ts
    → 0 < span
    → ts + span ≤ u32_mod
    → (ts ≤ agg_boundary ts span)
      × (agg_boundary ts span < ts + span)
      × (agg_boundary ts span % span ≡ 0)
agg_boundary_bounds ts span p s h =
    rw (agg_boundary-eq-mul ts span p s h)
      (omega (arith, below), omega (arith, below), mul-mod_left ((ts - 1) / span + 1) span)
  where
    below : (ts ≤ ((ts - 1) / span + 1) * span) × (((ts - 1) / span + 1) * span < ts + span)
    below = omega (arith, div-add-mod' (ts - 1) span, mod-lt (ts - 1) s)
