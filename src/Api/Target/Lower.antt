-- ===== src/Api/Target/Lower.antt =====
-- `alignBackward` and one second more: the first second behind the multiple of an interval.
use native.Mathlib.Nat.{
  div-eq_of_lt-le, div-add-mod', mod-lt, mul-div_left, div-div-eq-div-mul, mul-div-mul_right,
}
use metrictank.Common.{ℕ, ◌+◌, ◌-◌, ◌*◌, ◌/◌, ◌^◌, ◌≤◌, ◌<◌, ◌≡◌, ap, ◌∙◌, arith}
use metrictank.Common.Words.{add32}
use metrictank.Api.Fix.{align_backward}
use metrictank.Api.Fix.Align.{multiples_below, align_backward-eq-mul}

-- The interval, counted from 0, that ends at or behind `ts`.
abbrev pub slot_of : ℕ → ℕ → ℕ
slot_of ts interval = (ts - 1) / interval

abbrev pub lower : ℕ → ℕ → ℕ
lower ts interval = slot_of ts interval * interval + 1

pub multiples_below-slot_of : (ts i : ℕ) → 0 < ts → 0 < i → multiples_below ts i ≡ slot_of ts i + 1
multiples_below-slot_of ts i h pos =
    div-eq_of_lt-le i (omega (arith, div-add-mod' (ts - 1) i))
      (omega (arith, div-add-mod' (ts - 1) i, mod-lt (ts - 1) pos))

pub lower-le : (ts i : ℕ) → 0 < ts → lower ts i ≤ ts
lower-le ts i h = omega (arith, div-add-mod' (ts - 1) i)

pub align_backward-lower :
    (ts i : ℕ)
    → 0 < ts
    → 0 < i
    → ts < 2 ^ 32
    → i < 2 ^ 32
    → add32 (align_backward ts i) 1 ≡ lower ts i
align_backward-lower ts i h pos hi hi' = omega (
  arith,
  align_backward-eq-mul ts i pos h hi hi',
  ap (λ t. t * i) (multiples_below-slot_of ts i h pos),
  lower-le ts i h,
)

module _ (ts agg i : ℕ) (pos : 0 < i) where
  -- The lower end of an interval, counted in intervals of which `agg` make one of it.
  pub slot_of-lower : slot_of (lower ts (agg * i)) i ≡ slot_of ts (agg * i) * agg
  slot_of-lower =
      let e : lower ts (agg * i) - 1 ≡ slot_of ts (agg * i) * agg * i = omega arith in
      ap (λ t. t / i) e ∙ mul-div_left (slot_of ts (agg * i) * agg) pos

  -- The lower end of a small interval is in the same large interval.
  pub slot_of-lower_small : slot_of (lower ts i) (agg * i) ≡ slot_of ts (agg * i)
  slot_of-lower_small =
      let e : lower ts i - 1 ≡ slot_of ts i * i = omega arith in
      let f : i * agg ≡ agg * i = omega arith in
      ap (λ t. t / (agg * i)) e
      ∙ mul-div-mul_right (slot_of ts i) agg pos
      ∙ div-div-eq-div-mul (ts - 1) i agg
      ∙ ap (λ t. (ts - 1) / t) f
