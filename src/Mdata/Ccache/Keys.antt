-- ===== src/Mdata/Ccache/Keys.antt =====
-- The sets of archives of mdata/cache/ccache.go, and the key that the operations of
-- mdata/cache/ccache_metric.go leave a metric.
use metrictank.Common.{
  ℕ, ◌≡◌, refl, sym, ap, ◌∙◌, inl, inr, Bool, true, false, ◌&&◌, not, List, [], ◌∷◌, Option, none,
  some, ltb, ◌==◌, ==_iff, if◌then◌else◌, length, arith, Bool-cases, Option-cases,
}
use metrictank.Common.Maps.{get-put, get-erase}
use metrictank.Schema.{AmKey}
use metrictank.Chunk.IterGen.{IterGen}
use metrictank.Mdata.AggMetric.{◌>>=◌}
use metrictank.Common.Words.{sub32}
use metrictank.Mdata.Cache.{
  CacheChunk, CacheMetric, is_cached, put, next_ts, next_ts_core, seek_desc, previous, last_key,
  sort, add, del, find,
}
use metrictank.Mdata.Cache.AddRange.{add_head, add_last, add_rest, add_range}
use metrictank.Mdata.Accnt.{same_key}
use metrictank.Mdata.Ccache.{has, without, archives_of, track, untrack}

has-without : (a b : ℕ) (bs : List ℕ) → has a (without b bs) ≡ (if b == a then false else has a bs)
unfolding has without
has-without a b [] = elim (Bool-cases (b == a)) [ inl e ↦ rw e refl | inr e ↦ rw e refl ]
has-without a b (c ∷ cs) = ground (arith, has-without a b cs)

has-with :
    (a b : ℕ) (bs : List ℕ)
    → has a (if has b bs then bs else b ∷ bs) ≡ (if b == a then true else has a bs)
unfolding has
has-with a b bs = elim (Bool-cases (b == a)) [
  | inl e ↦
      let same : b ≡ a = ground arith in
      elim (Bool-cases (has b bs)) [
        | inl h ↦ rw (h, e) (ap (λ t. has t bs) (sym same) ∙ h)
        | inr h ↦ rw (h, e) refl
      ]
  | inr e ↦ elim (Bool-cases (has b bs)) [ inl h ↦ rw (h, e) refl | inr h ↦ rw (h, e) refl ]
]

-- Whether the archive of a key is in the sets.
abbrev pub is_tracked : AmKey → List (ℕ × List ℕ) → Bool
is_tracked k m = has k.archive (archives_of k.mkey m)

pub is_tracked-track :
    (k j : AmKey) (m : List (ℕ × List ℕ))
    → is_tracked k (track j m) ≡ (if same_key j k then true else is_tracked k m)
unfolding track
is_tracked-track k j m = elim (Bool-cases (j.mkey == k.mkey)) [
  | inl e ↦
      let same : j.mkey ≡ k.mkey = ground arith in
      rw (get-put ◌==◌ ==_iff k.mkey j.mkey _ m, e)
        (has-with k.archive j.archive (archives_of j.mkey m)
          ∙ ap (λ t. if j.archive == k.archive then true else has k.archive (archives_of t m)) same)
  | inr e ↦ rw (get-put ◌==◌ ==_iff k.mkey j.mkey _ m, e) refl
]

has_none : (a : ℕ) (bs : List ℕ) → (length bs == 0) ≡ true → has a bs ≡ false
unfolding has
has_none a [] e = refl
has_none a (b ∷ bs) e = absurd (ground arith)

pub is_tracked-untrack :
    (k j : AmKey) (m : List (ℕ × List ℕ))
    → is_tracked k (untrack j.mkey j.archive m) ≡ (if same_key j k then false else is_tracked k m)
unfolding untrack has
is_tracked-untrack k j m =
    let left = without j.archive (archives_of j.mkey m) in
    elim (Bool-cases (j.mkey == k.mkey)) [
      | inl e ↦
          let same : j.mkey ≡ k.mkey = ground arith in
          let law : has k.archive left
              ≡ (if j.archive == k.archive then false else is_tracked k m) =
            has-without k.archive j.archive (archives_of j.mkey m)
            ∙ ap (λ t. if j.archive == k.archive then false else has k.archive (archives_of t m))
                same in
          elim (Bool-cases (length left == 0)) [
            | inl z ↦
                rw (z, get-erase ◌==◌ ==_iff k.mkey j.mkey m, e)
                  (sym (has_none k.archive left z) ∙ law)
            | inr nz ↦ rw (nz, get-put ◌==◌ ==_iff k.mkey j.mkey left m, e) law
          ]
      | inr e ↦ elim (Bool-cases (length left == 0)) [
        | inl z ↦ rw (z, get-erase ◌==◌ ==_iff k.mkey j.mkey m, e) refl
        | inr nz ↦ rw (nz, get-put ◌==◌ ==_iff k.mkey j.mkey left m, e) refl
      ]
    ]

-- What an operation may leave of a metric: nothing, after a panic, or a metric of the same key.
abbrev pub KeepsKey : CacheMetric → Option CacheMetric → Type 0
KeepsKey m none = Unit
KeepsKey m (some m') = m'.mkey ≡ m.mkey

pub add-KeepsKey : (m : CacheMetric) (prev : ℕ) (g : IterGen) → KeepsKey m (add m prev g)
unfolding add
add-KeepsKey m prev g = elim (Bool-cases (is_cached g.t0 m.chunks)) [
  | inl e ↦ rw e refl
  | inr e ↦
      let c : CacheChunk = record { ts = g.t0; prev = 0; next = 0; itgen = g } in
      let cs = put c m.chunks in
      elim (Option-cases (next_ts cs g.t0)) [
        | inl en ↦ rw (e, en, ◌>>=◌) tt
        | inr (next, en) ↦ elim (Option-cases (seek_desc cs m.keys (sub32 g.t0 1))) [
          | inl er ↦ rw (e, en, ◌>>=◌, er) tt
          | inr (res, er) ↦ rw (e, en, ◌>>=◌, er) refl
        ]
      ]
]

pub del-mkey : (m : CacheMetric) (ts : ℕ) → (del m ts).0.mkey ≡ m.mkey
unfolding del
del-mkey m ts = elim (Option-cases (find ts m.chunks)) [
  | inl e ↦ rw (del, e) refl
  | inr (c, e) ↦ rw (del, e) refl
]

add_head-KeepsKey :
    (m : CacheMetric) (prev : ℕ) (g : IterGen) (next : ℕ) → KeepsKey m (add_head m prev g next)
unfolding add_head
add_head-KeepsKey m prev g next = elim (Bool-cases (is_cached g.t0 m.chunks)) [
  | inl e ↦ rw e refl
  | inr e ↦ elim (Option-cases (seek_desc m.chunks m.keys (sub32 g.t0 1))) [
    | inl er ↦ rw (e, er, ◌>>=◌) tt
    | inr (res, er) ↦
        let p = previous prev res in
        elim (Bool-cases (not (p == 0) && not (sub32 g.t0 p == sub32 next g.t0))) [
          | inl far ↦ rw (e, er, ◌>>=◌, far) refl
          | inr near ↦ elim (Bool-cases (is_cached p m.chunks)) [
            | inl t ↦ rw (e, er, ◌>>=◌, near, t) refl
            | inr t ↦ rw (e, er, ◌>>=◌, near, t) refl
          ]
        ]
  ]
]

add_rest-KeepsKey :
    (gs : List IterGen) (m : CacheMetric) (prev : ℕ) (g : IterGen)
    → KeepsKey m (add_rest m prev g gs)
unfolding add_rest add_last
add_rest-KeepsKey [] m prev g = elim (Bool-cases (is_cached g.t0 m.chunks)) [
  | inl e ↦ rw e refl
  | inr e ↦ elim (Option-cases (next_ts_core g prev 0)) [
    | inl en ↦ rw (e, en, ◌>>=◌) tt
    | inr (next, en) ↦ rw (e, en, ◌>>=◌) refl
  ]
]
add_rest-KeepsKey (h ∷ gs) m prev g = add_rest-KeepsKey gs _ g.t0 h

pub add_range-KeepsKey :
    (m : CacheMetric) (prev : ℕ) (gs : List IterGen) → KeepsKey m (add_range m prev gs)
unfolding add_range
add_range-KeepsKey m prev [] = refl
add_range-KeepsKey m prev (g ∷ []) = add-KeepsKey m prev g
add_range-KeepsKey m prev (g ∷ h ∷ gs) =
    go (add_head m prev g h.t0) (add_head-KeepsKey m prev g h.t0)
  where
    sorted :
        (m' : CacheMetric)
        → m'.mkey ≡ m.mkey
        → (o : Option CacheMetric) → KeepsKey m' o
        → KeepsKey m (
            o >>= λ done.
            some
              (if ltb g.t0 (last_key m.keys) then record done { keys = sort done.keys } else done))
    sorted m' k none q = tt
    sorted m' k (some done) q = elim (Bool-cases (ltb g.t0 (last_key m.keys))) [
      | inl e ↦ rw e (q ∙ k)
      | inr e ↦ rw e (q ∙ k)
    ]

    go :
        (o : Option CacheMetric)
        → KeepsKey m o
        → KeepsKey m (
            o >>= λ m'. add_rest m' g.t0 h gs >>= λ done.
            some
              (if ltb g.t0 (last_key m.keys) then record done { keys = sort done.keys } else done))
    go none k = tt
    go (some m') k = sorted m' k (add_rest m' g.t0 h gs) (add_rest-KeepsKey gs m' g.t0 h)
