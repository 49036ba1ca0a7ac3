-- ===== src/Mdata/Accnt/Recent.antt =====
-- The list of mdata/cache/accnt/lru.go: what is in it after each operation.
use metrictank.Common.{
  ℕ, suc, ◌≡◌, ◌↔◌, refl, sym, ap, ap₂, ◌∙◌, Bool, true, false, ◌||◌, List, [], ◌∷◌, some, ◌==◌,
  ==_iff, and_true, arith, Bool-cases, inl, inr, length, zero,
}
use metrictank.Schema.{AmKey}
use metrictank.Chunk.IterGen.{IterGen}
use metrictank.Mdata.Accnt.{
  EvictTarget, same_key, same_target, contains, unlink, touch, del, pop, with_first, reset,
  touch_all, del_chunks,
}

pub same_key_law : (a b : AmKey) → (same_key a b ≡ true) ↔ (a ≡ b)
same_key_law a b = (
  λ h.
      let (m, r) = (and_true (a.mkey == b.mkey) (a.archive == b.archive)).0 h in
      let build = λ (x y : ℕ). (let k : AmKey = record { mkey = x; archive = y } in k) in
      ap₂ build ((==_iff a.mkey b.mkey).0 m) ((==_iff a.archive b.archive).0 r),
  λ e. (and_true (a.mkey == b.mkey) (a.archive == b.archive)).1 (
    (==_iff a.mkey b.mkey).1 (ap (λ (k : AmKey). k.mkey) e),
    (==_iff a.archive b.archive).1 (ap (λ (k : AmKey). k.archive) e),
  ),
)

pub same_target_law : (a b : EvictTarget) → (same_target a b ≡ true) ↔ (a ≡ b)
same_target_law a b = (
  λ h.
      let (m, t) = (and_true (same_key a.metric b.metric) (a.ts == b.ts)).0 h in
      let build =
        λ (x : AmKey) (y : ℕ). (let k : EvictTarget = record { metric = x; ts = y } in k) in
      ap₂ build ((same_key_law a.metric b.metric).0 m) ((==_iff a.ts b.ts).0 t),
  λ e. (and_true (same_key a.metric b.metric) (a.ts == b.ts)).1 (
    (same_key_law a.metric b.metric).1 (ap (λ (k : EvictTarget). k.metric) e),
    (==_iff a.ts b.ts).1 (ap (λ (k : EvictTarget). k.ts) e),
  ),
)

pub same_target_refl : (x : EvictTarget) → same_target x x ≡ true
same_target_refl x = (same_target_law x x).1 refl

-- Others stay.
contains-unlink :
    (x y : EvictTarget) (l : List EvictTarget)
    → same_target y x ≡ false
    → contains x l ≡ true
    → contains x (unlink y l) ≡ true
contains-unlink x y [] ne h = h
contains-unlink x y (z ∷ l) ne h = elim (Bool-cases (same_target y z)) [
  | inl e ↦
      let at : y ≡ z = (same_target_law y z).0 e in
      elim (Bool-cases (same_target x z)) [
        | inl f ↦
            let xz : x ≡ z = (same_target_law x z).0 f in
            let yx : same_target y x ≡ true = (same_target_law y x).1 (at ∙ sym xz) in cc
        | inr f ↦ rw e (rw f at h)
      ]
  | inr e ↦ rw e (elim (Bool-cases (same_target x z)) [
    | inl f ↦ rw f refl
    | inr f ↦ rw f (contains-unlink x y l ne (rw f at h))
  ])
]

pub contains-touch :
    (x y : EvictTarget) (l : List EvictTarget) → contains x l ≡ true → contains x (touch y l) ≡ true
unfolding touch
contains-touch x y l h = elim (Bool-cases (contains y l)) [
  | inr e ↦ rw e (elim (Bool-cases (same_target x y)) [ inl f ↦ rw f refl | inr f ↦ rw f h ])
  | inl e ↦ rw e (elim (Bool-cases (same_target x y)) [
    | inl f ↦ rw f refl
    | inr f ↦ rw f (contains-unlink x y l (flip x y f) h)
  ])
]
  where
    flip : (a b : EvictTarget) → same_target a b ≡ false → same_target b a ≡ false
    flip a b f = elim (Bool-cases (same_target b a)) [
      | inr g ↦ g
      | inl g ↦
          let t : same_target a b ≡ true =
            (same_target_law a b).1 (sym ((same_target_law b a).0 g)) in
          cc
    ]

pub contains-touch_self : (y : EvictTarget) (l : List EvictTarget) → contains y (touch y l) ≡ true
unfolding touch
contains-touch_self y l = elim (Bool-cases (contains y l)) [
  | inl e ↦ rw (e, same_target_refl y) refl
  | inr e ↦ rw (e, same_target_refl y) refl
]

pub contains-del :
    (x y : EvictTarget) (l : List EvictTarget)
    → same_target y x ≡ false
    → contains x l ≡ true
    → contains x (del y l) ≡ true
unfolding del
contains-del x y l ne h = elim (Bool-cases (contains y l)) [
  | inl e ↦ rw e (contains-unlink x y l ne h)
  | inr e ↦ rw e h
]

last_off :
    (x y : EvictTarget) (l : List EvictTarget)
    → let r = with_first y (pop l) in
      (contains x (y ∷ l) ≡ true → same_target x r.0 ≡ false → contains x r.1 ≡ true)
      × (length l ≡ length r.1)
unfolding pop
last_off x y [] = (λ h ne. only (same_target x y) h ne, refl)
  where
    only : (c : Bool) → c || false ≡ true → c ≡ false → contains x [] ≡ true
    only true h ne = cc
    only false h ne = h
last_off x y (z ∷ m) =
    let ih = last_off x z m in
    (
      λ h ne. elim (Bool-cases (same_target x y)) [
        | inl e ↦ rw e refl
        | inr e ↦ rw e (ih.0 (rw e at h) ne)
      ],
      ap suc ih.1,
    )

-- `pop` takes one target off, and nothing only off the empty list.
pub record Pops (l : List EvictTarget) (t : EvictTarget) (l' : List EvictTarget) : Type 0 where
  pub pop_lem : pop l ≡ some (t, l')
  pub keeps :
      (x : EvictTarget) → contains x l ≡ true → same_target x t ≡ false → contains x l' ≡ true
  pub length_lem : length l ≡ suc (length l')

pub pop-Pops :
    (y : EvictTarget) (l : List EvictTarget)
    → (t : EvictTarget) × (l' : List EvictTarget) × Pops (y ∷ l) t l'
unfolding pop
pop-Pops y l =
    let r = with_first y (pop l) in
    (
      r.0,
      r.1,
      record {
        pop_lem = refl;
        keeps = λ x. (last_off x y l).0;
        length_lem = ap suc (last_off y y l).1;
      },
    )

reset-none : reset 1 [] ≡ some []
unfolding reset pop
reset-none = refl

reset-goes :
    (n : ℕ) (l : List EvictTarget) {t : EvictTarget} {l' : List EvictTarget}
    → pop l ≡ some (t, l')
    → reset (suc n) l ≡ reset n l'
unfolding reset
reset-goes n l e = rw (e, reset) refl

reset_by_length : (n : ℕ) (l : List EvictTarget) → length l ≡ n → reset (suc n) l ≡ some []
reset_by_length zero [] e = reset-none
reset_by_length zero (y ∷ l) e = absurd (omega (arith, e))
reset_by_length (suc n) [] e = absurd (omega (arith, e))
reset_by_length (suc n) (y ∷ l) e =
    let (t, l', p) = pop-Pops y l in
    reset-goes (suc n) (y ∷ l) p.pop_lem ∙ reset_by_length n l' (omega (arith, e, p.length_lem))

-- For every list, `reset` with one more round than its targets ends, with none left.
pub reset-empties : (l : List EvictTarget) → reset (suc (length l)) l ≡ some []
reset-empties l = reset_by_length (length l) l refl

pub contains-touch_all :
    (x : EvictTarget) (metric : AmKey) (cs : List IterGen) (l : List EvictTarget)
    → contains x l ≡ true
    → contains x (touch_all metric cs l) ≡ true
unfolding touch_all
contains-touch_all x metric [] l h = h
contains-touch_all x metric (c ∷ cs) l h =
    contains-touch_all x metric cs _ (contains-touch x (record { metric = metric; ts = c.t0 }) l h)

-- The targets of other metrics stay.
pub contains-del_chunks :
    (x : EvictTarget) (metric : AmKey) (chunks : List (ℕ × ℕ)) (l : List EvictTarget)
    → same_key metric x.metric ≡ false
    → contains x l ≡ true
    → contains x (del_chunks metric chunks l) ≡ true
unfolding del_chunks
contains-del_chunks x metric [] l ne h = h
contains-del_chunks x metric ((ts, size) ∷ chunks) l ne h =
    let t : EvictTarget = record { metric = metric; ts = ts } in
    contains-del_chunks x metric chunks (del t l) ne (contains-del x t l (other ts) h)
  where
    other : (ts : ℕ) → same_target (record { metric = metric; ts = ts }) x ≡ false
    other ts = rw ne refl
