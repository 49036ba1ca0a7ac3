-- ===== src/Api/Fix/Align.antt =====
-- `alignForward` and `alignBackward` of api/dataprocessor.go as multiples of the interval.
use native.Mathlib.Nat.{mod-lt, div-add-mod', div-eq_of_lt-le}
use metrictank.Common.{ℕ, ◌+◌, ◌-◌, ◌*◌, ◌/◌, ◌%◌, ◌^◌, ◌<◌, ◌≡◌, ◌==◌, inl, inr, arith, Bool-cases}
use metrictank.Common.Words.{sub32}
use metrictank.Api.Fix.{align_forward, align_backward}

-- How many multiples of the interval are below `ts`.
abbrev pub multiples_below : ℕ → ℕ → ℕ
multiples_below ts interval = (ts + interval - 1) / interval

module _ (ts interval : ℕ) (pos : 0 < interval) where
  pub align_forward-eq-mul :
      ts + interval < 2 ^ 32 → align_forward ts interval ≡ multiples_below ts interval * interval
  unfolding align_forward
  align_forward-eq-mul h = elim (Bool-cases (ts % interval == 0)) [
    | inl e ↦
        let q : multiples_below ts interval ≡ ts / interval =
          div-eq_of_lt-le interval (omega (arith, div-add-mod' ts interval)) (
            let z : ts % interval ≡ 0 = ground arith in
            omega (arith, div-add-mod' ts interval, pos)) in
        let z : ts % interval ≡ 0 = ground arith in
        rw (e, q) (omega (arith, div-add-mod' ts interval))
    | inr e ↦
        let z : 0 < ts % interval = ground arith in
        let q : multiples_below ts interval ≡ ts / interval + 1 =
          div-eq_of_lt-le interval (omega (arith, div-add-mod' ts interval))
            (omega (arith, div-add-mod' ts interval, mod-lt ts pos)) in
        rw (e, q) (omega (arith, div-add-mod' ts interval, mod-lt ts pos))
  ]

  pub align_backward-eq-mul :
      0 < ts
      → ts < 2 ^ 32
      → interval < 2 ^ 32
      → align_backward ts interval + interval ≡ multiples_below ts interval * interval
  unfolding align_backward
  align_backward-eq-mul t hi hi' =
      let one : sub32 ts 1 ≡ ts - 1 = omega arith in
      let q : multiples_below ts interval ≡ (ts - 1) / interval + 1 =
        div-eq_of_lt-le interval (omega (arith, div-add-mod' (ts - 1) interval))
          (omega (arith, div-add-mod' (ts - 1) interval, mod-lt (ts - 1) pos)) in
      rw (one, q) (omega (arith, div-add-mod' (ts - 1) interval, mod-lt (ts - 1) pos))
