-- ===== src/Api/Plan/Distinct.antt =====
-- The distinct intervals of `planHighestResMulti` in api/query_engine.go are the intervals.
use metrictank.Common.{
  refl, ℕ, ◌≡◌, inl, inr, sym, true, false, List, [], ◌∷◌, ◌++◌, ◌==◌, arith, All, All-append,
  Bool-cases, subst,
}
use metrictank.Api.Plan.{distinct, is_seen}

pub distinct-All :
    (P : ℕ → Type 0) (seen xs : List ℕ) → All P seen → All P xs → All P (distinct seen xs)
unfolding distinct
distinct-All P seen [] s a = s
distinct-All P seen (x ∷ xs) s a = elim (Bool-cases (is_seen x seen)) [
  | inl e ↦ rw e (distinct-All P seen xs s a.1)
  | inr e ↦ rw e (distinct-All P (seen ++ x ∷ []) xs (All-append P seen (x ∷ []) s (a.0, tt)) a.1)
]

All-front : (P : ℕ → Type 0) (xs ys : List ℕ) → All P (xs ++ ys) → All P xs
All-front P [] ys a = tt
All-front P (x ∷ xs) ys a = (a.0, All-front P xs ys a.1)

All_last : (P : ℕ → Type 0) (xs : List ℕ) (y : ℕ) → All P (xs ++ y ∷ []) → P y
All_last P [] y a = a.0
All_last P (x ∷ xs) y a = All_last P xs y a.1

is_seen-All : (P : ℕ → Type 0) (x : ℕ) (seen : List ℕ) → is_seen x seen ≡ true → All P seen → P x
unfolding is_seen
is_seen-All P x [] e a = absurd (no e)
  where
    no : false ≡ true → ⊥
    no h = cc
is_seen-All P x (y ∷ ys) e a = elim (Bool-cases (x == y)) [
  | inl same ↦ let h : x ≡ y = ground arith in subst P (sym h) a.0
  | inr other ↦ is_seen-All P x ys (rw other at e) a.1
]

-- What holds of the distinct ones holds of all.
pub All-distinct :
    (P : ℕ → Type 0) (seen xs : List ℕ) → All P (distinct seen xs) → All P seen × All P xs
unfolding distinct
All-distinct P seen [] a = (a, tt)
All-distinct P seen (x ∷ xs) a = elim (Bool-cases (is_seen x seen)) [
  | inl e ↦ let (s, r) = All-distinct P seen xs (rw e at a) in (s, (is_seen-All P x seen e s, r))
  | inr e ↦
      let (s, r) = All-distinct P (seen ++ x ∷ []) xs (rw e at a) in
      (All-front P seen (x ∷ []) s, (All_last P seen x s, r))
]

distinct-cons :
    (y : ℕ) (ys xs : List ℕ) → (v : ℕ) × (vals : List ℕ) × (distinct (y ∷ ys) xs ≡ v ∷ vals)
unfolding distinct
distinct-cons y ys [] = (y, ys, refl)
distinct-cons y ys (x ∷ xs) = elim (Bool-cases (is_seen x (y ∷ ys))) [
  | inl e ↦ rw e (distinct-cons y ys xs)
  | inr e ↦ rw e (distinct-cons y (ys ++ x ∷ []) xs)
]

pub distinct_some :
    (x : ℕ) (xs : List ℕ) → (v : ℕ) × (vals : List ℕ) × (distinct [] (x ∷ xs) ≡ v ∷ vals)
unfolding distinct is_seen
distinct_some x xs = distinct-cons x [] xs
