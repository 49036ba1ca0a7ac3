-- ===== src/Api/Fix/Slots.antt =====
-- The slots of a grid, whatever order of points fills them: what `Fix` of api/dataprocessor.go is
-- held against.
use metrictank.Common.{
  ℕ, zero, suc, ◌+◌, ◌≤◌, ◌<◌, ◌≡◌, inl, inr, refl, sym, ◌∙◌, ◌&&◌, List, [], ◌∷◌, ltb, leb,
  if◌then◌else◌, length, arith, All, Bool-cases,
}
use metrictank.Schema.{Point}
use metrictank.Api.Fix.{skip_old}

-- The points are in order of time.
abbrev pub Ascends : List Point → Type 0
Ascends [] = Unit
Ascends (p ∷ ps) = All (λ (q : Point). p.ts ≤ q.ts) ps × Ascends ps

-- The value of the first point within the interval that ends at `t`, or else the null.
unfoldable pub slot_value : ℕ → ℕ → ℕ → List Point → ℕ
slot_value nan t interval [] = nan
slot_value nan t interval (p ∷ ps) =
    let rest = slot_value nan t interval ps in
    if leb p.ts t && ltb t (p.ts + interval) then p.val else rest

-- A slot at each of `n` times, an interval apart, from `t` on.
unfoldable pub grid : ℕ → ℕ → ℕ → ℕ → List Point → List Point
unfolding slot_value
grid nan t zero interval points = []
grid nan t (suc n) interval points =
    record { val = slot_value nan t interval points; ts = t }
    ∷ grid nan (t + interval) n interval points

pub length-skip_old : (limit : ℕ) (ps : List Point) → length (skip_old limit ps) ≤ length ps
unfolding skip_old
length-skip_old limit [] = omega arith
length-skip_old limit (p ∷ ps) = elim (Bool-cases (leb p.ts limit)) [
  | inl e ↦ rw e (omega (arith, length-skip_old limit ps))
  | inr e ↦ rw e (omega arith)
]

pub skip_old-Ascends : (limit : ℕ) (ps : List Point) → Ascends ps → Ascends (skip_old limit ps)
unfolding skip_old
skip_old-Ascends limit [] h = tt
skip_old-Ascends limit (p ∷ ps) h = elim (Bool-cases (leb p.ts limit)) [
  | inl e ↦ rw e (skip_old-Ascends limit ps h.1)
  | inr e ↦ rw e h
]

pub All-above :
    (t k : ℕ) (ps : List Point)
    → t < k
    → All (λ (q : Point). k ≤ q.ts) ps
    → All (λ (q : Point). t < q.ts) ps
All-above t k [] h a = tt
All-above t k (p ∷ ps) h a = (omega (arith, a.0), All-above t k ps h a.1)

-- A round that passes points over passes one over at least.
pub length-skip_old_lt :
    (limit : ℕ) (p : Point) (ps : List Point)
    → p.ts ≤ limit
    → length (skip_old limit (p ∷ ps)) < suc (length ps)
unfolding skip_old
length-skip_old_lt limit p ps h = ground (arith, length-skip_old limit ps)

module _ (nan interval : ℕ) where
  -- A point that is a whole interval old is in no slot.
  slot_value-old :
      (t : ℕ) (p : Point) (ps : List Point)
      → p.ts + interval ≤ t
      → slot_value nan t interval (p ∷ ps) ≡ slot_value nan t interval ps
  unfolding slot_value
  slot_value-old t p ps h = ground arith

  slot_value-skip :
      (t limit : ℕ) (ps : List Point)
      → limit + interval ≤ t
      → slot_value nan t interval (skip_old limit ps) ≡ slot_value nan t interval ps
  unfolding skip_old
  slot_value-skip t limit [] h = refl
  slot_value-skip t limit (p ∷ ps) h = elim (Bool-cases (leb p.ts limit)) [
    | inl e ↦ rw e (slot_value-skip t limit ps h ∙ sym (slot_value-old t p ps (ground arith)))
    | inr e ↦ rw e refl
  ]

  -- Points behind `t` leave its slot empty.
  pub slot_value-late :
      (t : ℕ) (ps : List Point)
      → All (λ (q : Point). t < q.ts) ps
      → slot_value nan t interval ps ≡ nan
  unfolding slot_value
  slot_value-late t [] h = refl
  slot_value-late t (p ∷ ps) h = ground (arith, h.0, slot_value-late t ps h.1)

  pub grid-old :
      (n t : ℕ) (p : Point) (ps : List Point)
      → p.ts + interval ≤ t
      → grid nan t n interval (p ∷ ps) ≡ grid nan t n interval ps
  unfolding grid
  grid-old zero t p ps h = refl
  grid-old (suc n) t p ps h =
      rw (slot_value-old t p ps h, grid-old n (t + interval) p ps (omega arith)) refl

  pub grid-skip :
      (n t limit : ℕ) (ps : List Point)
      → limit + interval ≤ t
      → grid nan t n interval (skip_old limit ps) ≡ grid nan t n interval ps
  unfolding grid
  grid-skip zero t limit ps h = refl
  grid-skip (suc n) t limit ps h =
      rw (slot_value-skip t limit ps h, grid-skip n (t + interval) limit ps (omega arith)) refl
