-- ===== src/Mdata/Cache/Seek.antt =====
-- The chunk that `seekAsc` and `seekDesc` of mdata/cache/ccache_metric.go find.
use metrictank.Common.{
  ℕ, ◌≡◌, ◌≤◌, ◌<◌, ◌⊎◌, inl, inr, List, [], ◌∷◌, reverse, some, ltb, leb, subst, Bool-cases,
  Option-cases, arith,
}
use metrictank.Mdata.Cache.{
  CacheChunk, CacheMetric, next_ts, seek_up, seek_down, seek_asc, seek_desc,
}

-- The chunk of `k` starts at or before `ts` and ends behind it.
abbrev pub Holds : List CacheChunk → ℕ → ℕ → Type 0
Holds cs k ts = (k ≤ ts) × ((n : ℕ) × (next_ts cs k ≡ some n) × (ts < n))

seek_up-Holds :
    (cs : List CacheChunk) (keys : List ℕ) (ts k : ℕ)
    → seek_up cs keys ts ≡ some (some k)
    → Holds cs k ts
unfolding seek_up
seek_up-Holds cs [] ts k e = absurd (ground arith)
seek_up-Holds cs (x ∷ xs) ts k e = elim (Bool-cases (leb x ts)) [
  | inr gt ↦ absurd (ground arith)
  | inl le ↦ elim (Option-cases (next_ts cs x)) [
    | inl bad ↦ absurd (ground arith)
    | inr (n, en) ↦ elim (Bool-cases (ltb ts n)) [
      | inl lt ↦
          let z : x ≡ k = ground arith in
          subst (λ j. Holds cs j ts) z (ground arith, (n, en, ground arith))
      | inr past ↦ seek_up-Holds cs xs ts k (ground arith)
    ]
  ]
]

seek_down-Holds :
    (cs : List CacheChunk) (keys : List ℕ) (ts k : ℕ)
    → seek_down cs keys ts ≡ some (some k)
    → Holds cs k ts
unfolding seek_down
seek_down-Holds cs [] ts k e = absurd (ground arith)
seek_down-Holds cs (x ∷ xs) ts k e = elim (Option-cases (next_ts cs x)) [
  | inl bad ↦ absurd (ground arith)
  | inr (n, en) ↦ elim (Bool-cases (ltb ts n)) [
    | inr past ↦ absurd (ground arith)
    | inl lt ↦ elim (Bool-cases (leb x ts)) [
      | inr gt ↦ seek_down-Holds cs xs ts k (ground arith)
      | inl le ↦
          let z : x ≡ k = ground arith in
          subst (λ j. Holds cs j ts) z (ground arith, (n, en, ground arith))
    ]
  ]
]

-- A timestamp that either search finds is that of a chunk which starts at or before the timestamp
-- looked for, and whose end, known or guessed, is behind it.
seek-Holds :
    (m : CacheMetric) (ts k : ℕ)
    → (seek_asc m ts ≡ some (some k)) ⊎ (seek_desc m.chunks m.keys ts ≡ some (some k))
    → Holds m.chunks k ts
unfolding seek_asc seek_desc
seek-Holds m ts k (inl e) = seek_up-Holds m.chunks m.keys ts k e
seek-Holds m ts k (inr e) = seek_down-Holds m.chunks (reverse m.keys) ts k e
