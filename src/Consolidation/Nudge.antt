-- ===== src/Consolidation/Nudge.antt =====
-- The group size of `AggEvery`, and the alignment of `nudge`.
use metrictank.Common.{
  ℕ, ◌+◌, ◌-◌, ◌*◌, ◌/◌, ◌%◌, ◌≤◌, ◌<◌, ◌≡◌, refl, sym, ap, ◌∙◌, some, ◌==◌, false, Bool-cases, inl,
  inr, arith, dec_lt,
}
use metrictank.Common.Words.{u32_mod, sub32, mul32}
use native.Mathlib.Nat.{
  div-add-mod', mod-lt, mod-eq_of_lt, add-mul-mod_self_left, mul-lt-mul_of_pos_left,
  mul-div_cancel_left, mul-mod_right, mul-sub,
}
use metrictank.Consolidation.{agg_every, nudge}

-- For at least one point and one point of output, and a sum that fits 32 bits, groups of
-- `AggEvery` points are few enough for the limit, and with groups one point smaller they are not.
pub agg_every_bounds :
    (num_points max_points : ℕ)
    → 0 < num_points
    → 0 < max_points
    → num_points + max_points < u32_mod
    → (agg_num : ℕ) × (agg_every num_points max_points ≡ some agg_num)
      × (0 < agg_num)
      × (num_points ≤ agg_num * max_points)
      × ((agg_num - 1) * max_points < num_points)
unfolding agg_every
agg_every_bounds n m pn pm fits =
    let agg_num = (n + m - 1) / m in
    let e : sub32 ((n + m) % u32_mod) 1 ≡ n + m - 1 = omega arith in
    let some_n : (n == 0) ≡ false = ground arith in
    let some_m : (m == 0) ≡ false = ground arith in
    let d = div-add-mod' (n + m - 1) m in
    let l = mod-lt (n + m - 1) pm in
    let pos : 0 < agg_num = elim (dec_lt 0 agg_num) [
      | yes h ↦ h
      | no h ↦ let z : agg_num ≡ 0 = omega arith in absurd (omega (arith, d, l, ap (λ t. t * m) z))
    ] in
    let one_less : agg_num ≡ agg_num - 1 + 1 = omega arith in
    (
      agg_num,
      rw (some_n, some_m, e) refl,
      pos,
      omega (arith, d, l),
      omega (arith, d, l, ap (λ t. t * m) one_less),
    )

mul-mod-mul : (i k g : ℕ) → 0 < i → 0 < g → (i * k) % (i * g) ≡ i * (k % g)
mul-mod-mul i k g pi pg =
    let split : i * k ≡ i * (k % g) + i * g * (k / g) =
      ap (λ t. i * t) (sym (div-add-mod' k g)) ∙ omega arith in
    rw split (
      add-mul-mod_self_left (i * (k % g)) (i * g) (k / g)
      ∙ mod-eq_of_lt (mul-lt-mul_of_pos_left (mod-lt k pg) pi))

-- Where the points are on multiples of a positive interval, the first of them not before one
-- interval, and a group's length fits 32 bits, `nudge` strips fewer points than make a group, moves
-- the start by exactly those, and then the first group ends on a multiple of its length.
pub nudge_aligned :
    (start interval agg_num : ℕ)
    → 0 < interval
    → 0 < agg_num
    → interval * agg_num < u32_mod
    → start < u32_mod
    → start % interval ≡ 0
    → interval ≤ start
    → (shift : ℕ) × (num : ℕ) × (nudge start interval agg_num ≡ some (shift, num))
      × (num < agg_num)
      × (shift ≡ interval * num)
      × ((start + shift - interval) % (interval * agg_num) ≡ 0)
unfolding nudge
nudge_aligned start i g pi pg fits small aligned le =
    let k = start / i - 1 in
    let m = k % g in
    let from : start - i ≡ i * k =
      let one_less : start / i ≡ k + 1 = elim (dec_lt 0 (start / i)) [
        | yes h ↦ omega (arith, h)
        | no h ↦
            let z : start / i ≡ 0 = omega arith in
            absurd (omega (arith, aligned, div-add-mod' start i, ap (λ t. t * i) z))
      ] in
      omega (arith, aligned, div-add-mod' start i, ap (λ t. t * i) one_less) in
    let no_wrap : sub32 start i ≡ start - i = omega arith in
    let post : mul32 i g ≡ i * g = omega arith in
    let rem : (start - i) % (i * g) ≡ i * m = rw from (mul-mod-mul i k g pi pg) in
    let group_pos : 0 < i * g =
      omega (arith, mul-lt-mul_of_pos_left {m = 0} {n = g} {k = i} pg pi) in
    let some_post : (i * g == 0) ≡ false = ground (arith, group_pos) in
    elim (Bool-cases (m == 0)) [
      | inl e ↦
          let z : m ≡ 0 = ground arith in
          let none_left : i * m ≡ 0 = rw z (omega arith) in
          (
            0,
            0,
            rw (post, no_wrap, rem, none_left, some_post) refl,
            pg,
            omega arith,
            (let s : start + 0 - i ≡ start - i = omega arith in rw s (rem ∙ none_left)),
          )
      | inr e ↦
          let m_pos : 0 < m = ground arith in
          let lt : i * m < i * g = mul-lt-mul_of_pos_left (mod-lt k pg) pi in
          let rem_pos : 0 < i * m =
            omega (arith, mul-lt-mul_of_pos_left {m = 0} {n = m} {k = i} m_pos pi) in
          let some_rem : (i * m == 0) ≡ false = ground (arith, rem_pos) in
          let shift : sub32 (i * g) (i * m) ≡ i * (g - m) = omega (arith, lt, mul-sub i g m) in
          let split : i * k ≡ i * g * (k / g) + i * m =
            ap (λ t. i * t) (sym (div-add-mod' k g)) ∙ omega arith in
          let ends : start + i * (g - m) - i ≡ i * g * (k / g + 1) =
            omega (arith, from, split, lt, mul-sub i g m) in
          (
            i * (g - m),
            g - m,
            rw (post, no_wrap, rem, some_post, some_rem, shift, mul-div_cancel_left (g - m) pi)
                refl,
            omega (arith, m_pos),
            refl,
            rw ends (mul-mod_right (i * g) (k / g + 1)),
          )
    ]
