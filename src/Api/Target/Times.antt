-- ===== src/Api/Target/Times.antt =====
-- The timestamps of points that stand an interval apart, and of their groups.
use native.Mathlib.Nat.{mul-div_left}
use metrictank.Common.{
  ℕ, zero, suc, ◌+◌, ◌-◌, ◌*◌, ◌/◌, ◌<◌, ◌≡◌, refl, sym, ap, ◌∙◌, List, [], ◌∷◌, ◌++◌, map, some,
  true, ◌==◌, length, length-map, drop, arith, append-nil, subst,
}
use metrictank.Schema.{Point}
use metrictank.Consolidation.{at, consolidate}
use metrictank.Consolidation.Groups.{groups, leftover, consolidate-groups}
use metrictank.Api.Fix.Slots.{grid}

-- `n` timestamps an interval apart, from `t` on.
unfoldable pub times : ℕ → ℕ → ℕ → List ℕ
times t zero interval = []
times t (suc n) interval = t ∷ times (t + interval) n interval

abbrev pub timestamps : List Point → List ℕ
timestamps = map (λ (p : Point). p.ts)

pub length-times : (n t i : ℕ) → length (times t n i) ≡ n
unfolding times
length-times zero t i = refl
length-times (suc n) t i = ap suc (length-times n (t + i) i)

pub timestamps-grid :
    (nan i : ℕ) (points : List Point) (n t : ℕ) → timestamps (grid nan t n i points) ≡ times t n i
unfolding grid times
timestamps-grid nan i points zero t = refl
timestamps-grid nan i points (suc n) t = ap (λ l. t ∷ l) (timestamps-grid nan i points n (t + i))

cons_tail : {x y : ℕ} {xs ys : List ℕ} → x ∷ xs ≡ y ∷ ys → xs ≡ ys
cons_tail e = cc

cons_head : {x y : ℕ} {xs ys : List ℕ} → x ∷ xs ≡ y ∷ ys → x ≡ y
cons_head e = cc

times-drop :
    (num m t i : ℕ) (ps : List Point)
    → timestamps ps ≡ times t (num + m) i
    → timestamps (drop num ps) ≡ times (t + num * i) m i
unfolding times
times-drop zero m t i ps e =
    let a : 0 + m ≡ m = omega arith in let b : t + 0 * i ≡ t = omega arith in rw (b, ← a) e
times-drop (suc num) m t i [] e =
    let a : suc num + m ≡ suc (num + m) = omega arith in absurd (nil (rw a at e))
  where
    nil : [] ≡ times t (suc (num + m)) i → ⊥
    nil h = cc
times-drop (suc num) m t i (p ∷ ps) e =
    let a : suc num + m ≡ suc (num + m) = omega arith in
    let b : t + suc num * i ≡ t + i + num * i = omega arith in
    rw b (times-drop num m (t + i) i ps (cons_tail (rw a at e)))

times-at :
    (j m t i : ℕ) (ps : List Point)
    → timestamps ps ≡ times t (j + suc m) i
    → (at ps j).ts ≡ t + j * i
unfolding times
times-at zero m t i [] e = let a : 0 + suc m ≡ suc m = omega arith in absurd (nil (rw a at e))
  where
    nil : [] ≡ times t (suc m) i → ⊥
    nil h = cc
times-at (suc j) m t i [] e =
    let a : suc j + suc m ≡ suc (j + suc m) = omega arith in absurd (nil (rw a at e))
  where
    nil : [] ≡ times t (suc (j + suc m)) i → ⊥
    nil h = cc
times-at zero m t i (p ∷ ps) e =
    let a : 0 + suc m ≡ suc m = omega arith in
    let h : p.ts ≡ t = cons_head (rw a at e) in omega (arith, h)
times-at (suc j) m t i (p ∷ ps) e =
    let a : suc j + suc m ≡ suc (j + suc m) = omega arith in
    omega (arith, times-at j m (t + i) i ps (cons_tail (rw a at e)))

module _ (agg_func : List Point → ℕ) where
  -- The groups of points an interval apart stand `num` intervals apart.
  timestamps-groups :
      (n num t i : ℕ) (ps : List Point)
      → 0 < num
      → timestamps ps ≡ times t (n * num) i
      → timestamps (groups agg_func n num ps) ≡ times (t + (num - 1) * i) n (num * i)
  unfolding times
  timestamps-groups zero num t i ps pos e = refl
  timestamps-groups (suc n) num t i ps pos e =
      let a : suc n * num ≡ num + n * num = omega arith in
      let b : suc n * num ≡ num - 1 + suc (n * num) = omega arith in
      let c : t + (num - 1) * i + num * i ≡ t + num * i + (num - 1) * i = omega arith in
      let e₁ = subst (λ k. timestamps ps ≡ times t k i) a e in
      let e₂ = subst (λ k. timestamps ps ≡ times t k i) b e in
      rw (times-at (num - 1) (n * num) t i ps e₂, c)
        (ap (λ l. (t + (num - 1) * i) ∷ l)
          (timestamps-groups n num (t + num * i) i (drop num ps) pos
            (times-drop num (n * num) t i ps e₁)))

  -- Points that make up whole groups leave none over.
  pub timestamps-consolidate :
      (n num t i : ℕ) (ps : List Point)
      → 0 < num
      → timestamps ps ≡ times t (n * num) i
      → (out : List Point) × (consolidate agg_func ps num ≡ some out)
        × (timestamps out ≡ times (t + (num - 1) * i) n (num * i))
  timestamps-consolidate n num t i ps pos e =
      let len : length ps ≡ n * num =
        sym (length-map ps (λ (p : Point). p.ts)) ∙ ap length e ∙ length-times (n * num) t i in
      let q : length ps / num ≡ n = ap (λ k. k / num) len ∙ mul-div_left n pos in
      let whole : (length ps == num * (length ps / num)) ≡ true =
        rw (len, mul-div_left n pos) (ground arith) in
      let same : groups agg_func (length ps / num) num ps ++ leftover agg_func num ps
          ≡ groups agg_func n num ps =
        rw (whole, q) (append-nil (groups agg_func n num ps)) in
      (
        groups agg_func n num ps,
        consolidate-groups agg_func ps num pos ∙ ap some same,
        timestamps-groups n num t i ps pos e,
      )
