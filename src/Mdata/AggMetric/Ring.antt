-- ===== src/Mdata/AggMetric/Ring.antt =====
-- The ring of chunks, and the walk back over it in `persist`.
use metrictank.Common.{
  ℕ, zero, suc, ◌+◌, ◌-◌, ◌≤◌, ◌<◌, ◌≡◌, ◌≢◌, ◌⊎◌, refl, ap, ◌∙◌, inl, inr, List, [], ◌∷◌, some,
  ltb, if◌then◌else◌, get_elem?, length, arith, Bool-cases, ◌&&◌, Option-cases, ℕ_discrete,
}
use metrictank.Chunk.{Chunk}
use metrictank.Mdata.AggMetric.{◌>>=◌, pos_before, unsaved}

get_elem?-lt {ℓ} :
    {A : Type ℓ} (xs : List A) (i : ℕ) → i < length xs → (x : A) × (get_elem? xs i ≡ some x)
get_elem?-lt [] i h = absurd (omega arith)
get_elem?-lt (x ∷ xs) zero h = (x, refl)
get_elem?-lt (x ∷ xs) (suc i) h = get_elem?-lt xs i (omega arith)

pos_before-lt : (pos len : ℕ) → pos < len → pos_before pos len < len
unfolding pos_before
pos_before-lt pos len h = ground arith

-- How many steps back lead from `p` to `pos`.
abbrev steps_back : ℕ → ℕ → ℕ → ℕ
steps_back pos p len = if ltb pos p then p - pos else p + len - pos

steps_back-suc :
    (pos p len : ℕ)
    → pos < len
    → p < len
    → pos_before p len ≢ pos
    → steps_back pos (pos_before p len) len + 1 ≡ steps_back pos p len
unfolding pos_before
steps_back-suc pos p len hp hq ne = ground arith

-- The loop of `persist` ends before it comes round to its chunk again.
pub unsaved-total :
    (fuel : ℕ) (chunks : List Chunk) (pos p lss : ℕ) (c : Chunk)
    → get_elem? chunks pos ≡ some c
    → pos < length chunks
    → p < length chunks
    → steps_back pos p (length chunks) ≤ fuel
    → (cs : List Chunk) × (unsaved fuel chunks p c.series.t0 lss ≡ some cs)
unfolding unsaved
unsaved-total zero chunks pos p lss c e hp hq le = absurd (ground arith)
unsaved-total (suc fuel) chunks pos p lss c e hp hq le =
    let (x, ex) =
      get_elem?-lt chunks (pos_before p (length chunks)) (pos_before-lt p (length chunks) hq) in
    elim (ℕ_discrete (pos_before p (length chunks)) pos) [
      | yes here ↦ ([], rw (ap (get_elem? chunks) here ∙ e) (ground arith))
      | no ne ↦
          let fewer = steps_back-suc pos p (length chunks) hp hq ne in
          let (cs, ec) =
            unsaved-total fuel chunks pos (pos_before p (length chunks)) lss c e hp
              (pos_before-lt p (length chunks) hq) (omega (arith, fewer)) in
          elim (Bool-cases (ltb x.series.t0 c.series.t0 && ltb lss x.series.t0)) [
            | inl more ↦ (x ∷ cs, rw (ex, ◌>>=◌, more, ec))
            | inr stop ↦ ([], rw (ex, ◌>>=◌, stop))
          ]
    ]

-- `p` is the position before `pos` in a ring of `len`.
abbrev pub IsBefore : ℕ → ℕ → ℕ → Type 0
IsBefore pos p len = (p + 1 ≡ pos) ⊎ ((pos ≡ 0) × (p + 1 ≡ len))

pos_before-IsBefore : (pos len : ℕ) → 0 < len → IsBefore pos (pos_before pos len) len
unfolding pos_before
pos_before-IsBefore pos len some_chunks = elim (ℕ_discrete pos 0) [
  | yes z ↦ inr (z, ground arith)
  | no nz ↦ inl (ground arith)
]

-- The chunks right before `pos` in the ring, newest first, as far back as they start behind `lo` and
-- before `hi`: the one before the last of them does not.
abbrev pub Unsaved : List Chunk → ℕ → ℕ → ℕ → List Chunk → Type 0
Unsaved chunks lo hi pos [] =
    (p : ℕ) × (c : Chunk) × IsBefore pos p (length chunks)
    × (get_elem? chunks p ≡ some c)
    × ((c.series.t0 ≤ lo) ⊎ (hi ≤ c.series.t0))
Unsaved chunks lo hi pos (c ∷ cs) =
    (p : ℕ) × IsBefore pos p (length chunks)
    × (get_elem? chunks p ≡ some c)
    × (lo < c.series.t0)
    × (c.series.t0 < hi)
    × Unsaved chunks lo hi p cs

pub unsaved-Unsaved :
    (fuel : ℕ) (chunks : List Chunk) (pos t0 lss : ℕ) {cs : List Chunk}
    → 0 < length chunks
    → unsaved fuel chunks pos t0 lss ≡ some cs
    → Unsaved chunks lss t0 pos cs
unfolding unsaved
unsaved-Unsaved zero chunks pos t0 lss some_chunks e = absurd (ground arith)
unsaved-Unsaved (suc fuel) chunks pos t0 lss {cs} some_chunks e =
    let p = pos_before pos (length chunks) in
    let before = pos_before-IsBefore pos (length chunks) some_chunks in
    elim (Option-cases (get_elem? chunks p)) [
      | inl out ↦ absurd (ground arith)
      | inr (x, ex) ↦ elim (Bool-cases (ltb x.series.t0 t0 && ltb lss x.series.t0)) [
        | inr stop ↦ let z : cs ≡ [] = ground arith in rw z (p, x, before, ex, ground (arith, stop))
        | inl more ↦ elim (Option-cases (unsaved fuel chunks p t0 lss)) [
          | inl none_left ↦ absurd (ground arith)
          | inr (rest, er) ↦
              let z : cs ≡ x ∷ rest = ground arith in
              rw z (
                p,
                before,
                ex,
                ground (arith, more),
                ground (arith, more),
                unsaved-Unsaved fuel chunks p t0 lss some_chunks er,
              )
        ]
      ]
    ]
