-- ===== src/Consolidation/Groups.antt =====
-- `Consolidate` and the groups of its input, beside the array that it overwrites.
use metrictank.Common.{
  ℕ, zero, suc, ◌+◌, ◌-◌, ◌*◌, ◌/◌, ◌≤◌, ◌<◌, ◌≡◌, refl, sym, ap, ◌∙◌, List, [], ◌∷◌, ◌++◌, some,
  length, set, take, drop, arith, append_assoc, append-nil, Bool-cases, inl, inr, dec_lt, false,
  ◌==◌, if◌then◌else◌, ◌≢◌, length-set, get_or-set_ne,
}
use native.Mathlib.Nat.{div-add-mod', mod-lt, mul-le-mul_right}
use metrictank.Schema.{Point}
use metrictank.Consolidation.{at, fill, last_ts, consolidate}

-- An incomplete group leaves room: its groups are at least two points long.
room :
    (len num : ℕ)
    → 0 < num
    → len ≢ num * (len / num)
    → (2 * (len / num) + 1 ≤ len) × (len / num ≤ num * (len / num))
room len num pos ne =
    let q = len / num in
    elim (dec_lt 1 num) [
      | no small ↦ absurd (ne (omega (arith, small, div-add-mod' len num, mod-lt len pos)))
      | yes h ↦
          let two : 2 * q ≤ num * q = mul-le-mul_right q h in
          omega (arith, two, h, ne, div-add-mod' len num, mod-lt len pos)
    ]

module _ (agg_func : List Point → ℕ) where
  -- The first `n` groups of `num` points, each with the timestamp of its last point.
  abbrev pub groups : ℕ → ℕ → List Point → List Point
  groups zero num points = []
  groups (suc n) num points =
      record { val = agg_func (take num points); ts = (at points (num - 1)).ts }
      ∷ groups n num (drop num points)

  drop-set : (n i : ℕ) (xs : List Point) (v : Point) → i < n → drop n (set xs i v) ≡ drop n xs
  drop-set zero i xs v h = absurd (omega arith)
  drop-set (suc n) i [] v h = refl
  drop-set (suc n) zero (x ∷ xs) v h = refl
  drop-set (suc n) (suc i) (x ∷ xs) v h = drop-set n i xs v (omega arith)

  drop-nil : (n : ℕ) → drop {A = Point} n [] ≡ []
  drop-nil zero = refl
  drop-nil (suc n) = refl

  drop-drop : (m n : ℕ) (xs : List Point) → drop n (drop m xs) ≡ drop (m + n) xs
  drop-drop zero n xs = let e : 0 + n ≡ n = omega arith in rw e refl
  drop-drop (suc m) n [] = rw (drop-nil n, drop-nil (suc m + n)) refl
  drop-drop (suc m) n (x ∷ xs) =
      let e : suc m + n ≡ suc (m + n) = omega arith in rw e (drop-drop m n xs)

  at-drop : (m i : ℕ) (xs : List Point) → at (drop m xs) i ≡ at xs (m + i)
  at-drop zero i xs = let e : 0 + i ≡ i = omega arith in rw e refl
  at-drop (suc m) i [] = refl
  at-drop (suc m) i (x ∷ xs) =
      let e : suc m + i ≡ suc (m + i) = omega arith in rw e (at-drop m i xs)

  take-set :
      (i : ℕ) (xs : List Point) (v : Point)
      → i < length xs
      → take (i + 1) (set xs i v) ≡ take i xs ++ v ∷ []
  take-set i [] v h = absurd (omega arith)
  take-set zero (x ∷ xs) v h = refl
  take-set (suc i) (x ∷ xs) v h =
      let e : suc i + 1 ≡ suc (i + 1) = omega arith in
      rw e (ap (λ t. x ∷ t) (take-set i xs v (omega arith)))

  -- What lies behind the points written so far is as it was.
  drop-fill :
      (n num i o k : ℕ) (xs : List Point)
      → o + n ≤ k
      → drop k (fill agg_func n num i o xs) ≡ drop k xs
  unfolding fill
  drop-fill zero num i o k xs h = refl
  drop-fill (suc n) num i o k xs h =
      drop-fill n num (i + num) (o + 1) k _ (omega arith) ∙ drop-set k o xs _ (omega arith)

  at-fill :
      (n num i o j : ℕ) (xs : List Point) → o + n ≤ j → at (fill agg_func n num i o xs) j ≡ at xs j
  unfolding fill
  at-fill zero num i o j xs h = refl
  at-fill (suc n) num i o j xs h =
      at-fill n num (i + num) (o + 1) j _ (omega arith)
      ∙ get_or-set_ne xs o j _ _ (λ e. omega (arith, e))

  length-fill : (n num i o : ℕ) (xs : List Point) → length (fill agg_func n num i o xs) ≡ length xs
  unfolding fill
  length-fill zero num i o xs = refl
  length-fill (suc n) num i o xs = length-fill n num (i + num) (o + 1) _ ∙ length-set xs o _

  take-fill :
      (n num i o : ℕ) (xs : List Point)
      → 0 < num
      → o ≤ i
      → i + n * num ≤ length xs
      → take (o + n) (fill agg_func n num i o xs) ≡ take o xs ++ groups n num (drop i xs)
  unfolding fill
  take-fill zero num i o xs pos le fits =
      let e : o + 0 ≡ o = omega arith in rw e (sym (append-nil (take o xs)))
  take-fill (suc n) num i o xs pos le fits =
      let g : Point = record {
        val = agg_func (take num (drop i xs));
        ts = (at xs (i + num - 1)).ts;
      } in
      let e : o + suc n ≡ o + 1 + n = omega arith in
      let head : at (drop i xs) (num - 1) ≡ at xs (i + num - 1) =
        at-drop i (num - 1) xs
        ∙ ap (λ k. at xs k) {x = i + (num - 1)} {y = i + num - 1} (omega arith) in
      let behind : drop (i + num) (set xs o g) ≡ drop num (drop i xs) =
        drop-set (i + num) o xs g (omega arith) ∙ sym (drop-drop i num xs) in
      let rest =
        take-fill n num (i + num) (o + 1) (set xs o g) pos (omega arith)
          (rw (length-set xs o g) (omega arith)) in
      rw (e, head)
        (rest
          ∙ ap (λ t. t ++ groups n num (drop (i + num) (set xs o g)))
              (take-set o xs g (omega arith))
          ∙ append_assoc (take o xs) (g ∷ []) (groups n num (drop (i + num) (set xs o g)))
          ∙ ap (λ t. take o xs ++ g ∷ groups n num t) behind)

  -- The group behind the complete ones, if any.
  abbrev pub leftover : ℕ → List Point → List Point
  leftover num points =
      let clean_len = num * (length points / num) in
      if length points == clean_len
      then []
      else record {
        val = agg_func (drop clean_len points);
        ts = last_ts agg_func num clean_len points;
      }
        ∷ []

  last_ts-fill :
      (num : ℕ) (xs : List Point)
      → 0 < num
      → length xs ≢ num * (length xs / num)
      → last_ts agg_func num (num * (length xs / num)) (fill agg_func (length xs / num) num 0 0 xs)
        ≡ last_ts agg_func num (num * (length xs / num)) xs
  unfolding last_ts
  last_ts-fill num xs pos ne =
      let q = length xs / num in
      let size : (2 * q + 1 ≤ length xs) × (q ≤ num * q) = room (length xs) num pos ne in
      rw (length-fill q num 0 0 xs) (elim (Bool-cases (length xs == 1)) [
        | inl e ↦ rw e (ap (λ (p : Point). p.ts) (at-fill q num 0 0 0 xs (ground arith)))
        | inr e ↦
            rw
              (
                e,
                at-fill q num 0 0 (num * q) xs (omega arith),
                at-fill q num 0 0 (length xs - 1) xs (omega arith),
                at-fill q num 0 0 (length xs - 2) xs (ground arith),
              )
              refl
      ])

  -- For groups of at least one point, `Consolidate` yields the complete groups of the input in
  -- order, each aggregated from the values of the input and with the timestamp of its last point,
  -- and behind them the group of the points left over, if there are any.
  pub consolidate-groups :
      (points : List Point) (num : ℕ)
      → 0 < num
      → consolidate agg_func points num
        ≡ some (groups (length points / num) num points ++ leftover num points)
  unfolding consolidate
  consolidate-groups points num pos =
      let q = length points / num in
      let filled = fill agg_func q num 0 0 points in
      let whole : take q filled ≡ groups q num points =
        ap (λ k. take k filled) {x = q} {y = 0 + q} (omega arith)
        ∙ take-fill q num 0 0 points pos (omega arith)
            (omega (arith, div-add-mod' (length points) num)) in
      let some_num : (num == 0) ≡ false = ground arith in
      elim (Bool-cases (length points == num * q)) [
        | inl e ↦ rw (some_num, e, whole, append-nil (groups q num points)) refl
        | inr e ↦
            let size : (2 * q + 1 ≤ length points) × (q ≤ num * q) =
              room (length points) num pos (λ h. ground (arith, h)) in
            rw
              (
                some_num,
                e,
                drop-fill q num 0 0 (num * q) points (omega arith),
                last_ts-fill num points pos (λ h. ground (arith, h)),
                take-set q filled _ (rw (length-fill q num 0 0 points) (omega arith)),
                whole,
              )
              refl
      ]
