-- ===== src/Api/Fix/Grid.antt =====
-- `Fix` of api/dataprocessor.go against the grid of its interval.
use native.Mathlib.Nat.{
  div-mul-le_self, lt_of_mul-lt-mul_right, le_of_mul-le-mul_right, mul-div_left,
}
use metrictank.Common.{
  ℕ, zero, suc, ◌+◌, ◌-◌, ◌*◌, ◌/◌, ◌^◌, ◌≤◌, ◌<◌, ◌≡◌, ◌⊎◌, inl, inr, refl, sym, ap, ◌∙◌, true,
  false, List, [], ◌∷◌, none, some, ltb, ◌==◌, length, arith, Bool-cases, subst,
}
use metrictank.Common.Words.{add32, sub32}
use metrictank.Schema.{Point}
use metrictank.Api.Fix.Slots.{
  Ascends, slot_value, grid, All-above, length-skip_old_lt, skip_old-Ascends, slot_value-late,
  grid-old, grid-skip,
}
use metrictank.Api.Fix.Align.{multiples_below, align_forward-eq-mul, align_backward-eq-mul}
use metrictank.Api.Fix.{align_forward, align_backward, Slot, filled, again, fix_slot, fix_loop, fix}

module _ (nan interval : ℕ) where
  -- What a round yields is the slot of the grid, and leaves what the other slots need.
  Stepped : ℕ → ℕ → List Point → Slot → Type 0
  Stepped k t points (filled p left) =
      (p ≡ record { val = slot_value nan t interval points; ts = t })
      × (grid nan (t + interval) k interval left ≡ grid nan (t + interval) k interval points)
      × Ascends left
      × (length left ≤ length points)
  Stepped k t points (again left) =
      (grid nan t (suc k) interval left ≡ grid nan t (suc k) interval points)
      × Ascends left
      × (length left < length points)

  fix_slot-Stepped :
      (k t : ℕ) (points : List Point)
      → Ascends points
      → (t ≡ 0) ⊎ (interval ≤ t)
      → 0 < interval
      → t < 2 ^ 32
      → Stepped k t points (fix_slot nan t interval points)
  unfolding Stepped fix_slot slot_value
  fix_slot-Stepped k t [] asc lo pos hi = (refl, refl, tt, omega arith)
  fix_slot-Stepped k t (p ∷ ps) asc lo pos hi = elim (Bool-cases (p.ts == t)) [
    | inl e ↦ rw e (
      ground arith,
      sym (grid-old nan interval k (t + interval) p ps (ground arith)),
      asc.1,
      omega arith,
    )
    | inr ne ↦ elim (Bool-cases (ltb t p.ts)) [
      | inl late ↦
          rw (ne, late)
            (
              ap (λ v. record { val = v; ts = t })
                  (sym (
                    slot_value-late nan interval t (p ∷ ps)
                      (ground arith, All-above t p.ts ps (ground arith) asc.0))),
              refl,
              asc,
              omega arith,
            )
      | inr here ↦ elim (Bool-cases (ltb (sub32 t interval) p.ts)) [
        | inl new ↦
            rw (ne, here, new)
              (
                ground (arith, lo),
                sym (grid-old nan interval k (t + interval) p ps (ground arith)),
                asc.1,
                omega arith,
              )
        | inr old ↦
            let limit : sub32 t interval + interval ≤ t = ground (arith, lo) in
            rw (ne, here, old)
              (
                grid-skip nan interval (suc k) t (sub32 t interval) (p ∷ ps) limit,
                skip_old-Ascends (sub32 t interval) (p ∷ ps) asc,
                length-skip_old_lt (sub32 t interval) p ps (ground arith),
              )
      ]
    ]
  ]

  -- The loop yields the grid, for a number of rounds that covers the slots and the points.
  fix_loop-grid :
      (n k t last : ℕ) (points : List Point)
      → Ascends points
      → (t ≡ 0) ⊎ (interval ≤ t)
      → 0 < interval
      → last + interval < 2 ^ 32
      → t + k * interval ≡ last + interval
      → k + length points < n
      → fix_loop n nan t last interval points ≡ some (grid nan t k interval points)
  unfolding fix_loop grid Stepped
  fix_loop-grid zero k t last points asc lo pos hi end fuel = absurd (omega arith)
  fix_loop-grid (suc n) zero t last points asc lo pos hi end fuel =
      let e : ltb last t ≡ true = ground arith in rw e refl
  fix_loop-grid (suc n) (suc k) t last points asc lo pos hi end fuel =
      let e : ltb last t ≡ false = ground arith in
      rw e (
        go (fix_slot nan t interval points) (fix_slot-Stepped k t points asc lo pos (omega arith))
          (λ left. fix_loop-grid n k (add32 t interval) last left)
          (λ left. fix_loop-grid n (suc k) t last left))
    where
      go :
          (s : Slot)
          → Stepped k t points s
          → ((left : List Point)
              → Ascends left
              → (add32 t interval ≡ 0) ⊎ (interval ≤ add32 t interval)
              → 0 < interval
              → last + interval < 2 ^ 32
              → add32 t interval + k * interval ≡ last + interval
              → k + length left < n
              → fix_loop n nan (add32 t interval) last interval left
                ≡ some (grid nan (add32 t interval) k interval left))
          → ((left : List Point)
              → Ascends left
              → (t ≡ 0) ⊎ (interval ≤ t)
              → 0 < interval
              → last + interval < 2 ^ 32
              → t + suc k * interval ≡ last + interval
              → suc k + length left < n
              → fix_loop n nan t last interval left ≡ some (grid nan t (suc k) interval left))
          → (elim s [
            | filled p left ↦ elim (fix_loop n nan (add32 t interval) last interval left) [
              | none ↦ none
              | some out ↦ some (p ∷ out)
            ]
            | again left ↦ fix_loop n nan t last interval left
          ])
            ≡ some (grid nan t (suc k) interval points)
      go (filled p left) (same, rest, asc', le) next more =
          let sum : add32 t interval ≡ t + interval = omega (arith, hi, end) in
          rw
            (
              next left asc' (inr (omega (arith, sum))) pos hi (omega (arith, sum, end))
                  (omega (arith, fuel, le)),
              sum,
              rest,
              same,
            )
            refl
      go (again left) (rest, asc', lt) next more =
          more left asc' lo pos hi end (omega (arith, fuel, lt)) ∙ ap some rest

-- Multiples of the interval from the `m`th up to the `n`th.
mul_split : (m n i : ℕ) → m ≤ n → m * i + (n - m) * i ≡ n * i
mul_split m n i h =
    let e : m + (n - m) ≡ n = omega arith in
    let d : m * i + (n - m) * i ≡ (m + (n - m)) * i = omega arith in d ∙ ap (λ t. t * i) e

zero_or_le : (m i : ℕ) → (m * i ≡ 0) ⊎ (i ≤ m * i)
zero_or_le zero i = inl (omega arith)
zero_or_le (suc m) i = inr (omega arith)

-- `neededCap` is the number of slots.
needed :
    (first last m n i : ℕ)
    → 0 < i
    → first ≡ m * i
    → last + i ≡ n * i
    → m < n
    → n * i < 2 ^ 32
    → sub32 last first / i + 1 ≡ n - m
needed first last m n i pos f l h below =
    let split : m * i + (n - m) * i ≡ n * i = mul_split m n i (omega arith) in
    let one : 1 * i + (n - m - 1) * i ≡ (n - m) * i = mul_split 1 (n - m) i (omega arith) in
    let d : sub32 last first ≡ (n - m - 1) * i = omega (arith, f, l, split, one, below) in
    rw (d, mul-div_left (n - m - 1) pos) (omega arith)

-- For points in order of time, a positive interval, an end other than 0, and a range whose ends are
-- an interval below 2^32: `Fix` ends, and yields one point for each multiple of the interval from
-- the start on and before the end, in order. The value of each is that of the first input point that
-- is at it or less than an interval before it, and null where there is none.
pub fix-grid :
    (nan : ℕ) (points : List Point) (from to interval : ℕ)
    → Ascends points
    → 0 < interval
    → 0 < to
    → from + interval < 2 ^ 32
    → to + interval ≤ 2 ^ 32
    → fix nan points from to interval
      ≡ some (
          grid nan
            (multiples_below from interval * interval)
            (multiples_below to interval - multiples_below from interval)
            interval
            points)
unfolding fix grid
fix-grid nan points from to interval asc pos some_end hi_from hi_to =
    let m = multiples_below from interval in
    let n = multiples_below to interval in
    let z : (interval == 0) ≡ false = ground arith in
    let first : align_forward from interval ≡ m * interval =
      align_forward-eq-mul from interval pos hi_from in
    let last : align_backward to interval + interval ≡ n * interval =
      align_backward-eq-mul to interval pos some_end (omega arith) (omega arith) in
    let below : n * interval < 2 ^ 32 =
      omega (arith, div-mul-le_self (to + interval - 1) interval) in
    elim (Bool-cases (ltb (align_backward to interval) (align_forward from interval))) [
      | inl e ↦
          let h : n * interval < (m + 1) * interval = ground (arith, first, last) in
          let none_left : n - m ≡ 0 = omega (arith, lt_of_mul-lt-mul_right interval h) in
          rw (z, e, none_left) refl
      | inr e ↦
          let h : (m + 1) * interval ≤ n * interval = ground (arith, first, last) in
          let some_left : m + 1 ≤ n = le_of_mul-le-mul_right h pos in
          let total = mul_split m n interval (omega (arith, some_left)) in
          let lo = subst (λ t. (t ≡ 0) ⊎ (interval ≤ t)) (sym first) (zero_or_le m interval) in
          let cap =
            needed (align_forward from interval) (align_backward to interval) m n interval pos first
              last (omega (arith, some_left)) below in
          rw (z, e, cap)
            (fix_loop-grid nan interval _ (n - m) (align_forward from interval)
                (align_backward to interval) points asc lo pos (omega (arith, last, below))
                (omega (arith, first, last, total)) (omega arith)
              ∙ ap (λ t. some (grid nan t (n - m) interval points)) first)
    ]
