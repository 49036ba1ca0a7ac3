-- ===== src/Mdata/Accnt/Assoc.antt =====
-- Maps of the accounting (mdata/cache/accnt/flat_accnt.go) as lists of entries, one for each key.
use metrictank.Common.{
  ℕ, ◌+◌, ◌≡◌, ◌↔◌, refl, sym, ap, Bool, true, false, List, [], ◌∷◌, Option, none, some,
  if◌then◌else◌, arith, All, Bool-cases, inl, inr, subst,
}

-- A read of a map, `delete`, and a write.
abbrev pub lookup : {K V : Type 0} → (K → K → Bool) → K → List (K × V) → Option V
lookup eq k [] = none
lookup eq k ((j, v) ∷ m) = let rest = lookup eq k m in if eq k j then some v else rest

abbrev pub delete : {K V : Type 0} → (K → K → Bool) → K → List (K × V) → List (K × V)
delete eq k [] = []
delete eq k ((j, v) ∷ m) = let rest = delete eq k m in if eq k j then m else (j, v) ∷ rest

abbrev pub put : {K V : Type 0} → (K → K → Bool) → K → V → List (K × V) → List (K × V)
put eq k v m = (k, v) ∷ delete eq k m

-- The sum of a measure of the values.
abbrev pub total_of : {K V : Type 0} → (V → ℕ) → List (K × V) → ℕ
total_of f [] = 0
total_of f ((k, v) ∷ m) = f v + total_of f m

-- Every key has one entry.
abbrev pub Distinct : {K V : Type 0} → (K → K → Bool) → List (K × V) → Type 0
Distinct eq [] = Unit
Distinct eq ((k, v) ∷ m) = (lookup eq k m ≡ none) × Distinct eq m

some-none : {A : Type 0} {a : A} → some a ≡ none → ⊥
some-none e = cc

some_same : {A : Type 0} {a b : A} → some a ≡ some b → a ≡ b
some_same e = cc

module _ {K V : Type 0} (eq : K → K → Bool) (law : (a b : K) → (eq a b ≡ true) ↔ (a ≡ b)) where
  pub total_of-delete :
      (f : V → ℕ) (k : K) (v : V) (m : List (K × V))
      → lookup eq k m ≡ some v
      → total_of f m ≡ f v + total_of f (delete eq k m)
  total_of-delete f k v [] e = cc
  total_of-delete f k v ((j, w) ∷ m) e = go (eq k j) refl (total_of-delete f k v m) e
    where
      go :
          (c : Bool)
          → eq k j ≡ c
          → (lookup eq k m ≡ some v → total_of f m ≡ f v + total_of f (delete eq k m))
          → (if c then some w else lookup eq k m) ≡ some v
          → f w + total_of f m ≡ f v + total_of f (if c then m else (j, w) ∷ delete eq k m)
      go true t ih h = let same : w ≡ v = cc in ap (λ u. f u + total_of f m) same
      go false t ih h = omega (arith, ih h)

  pub delete-none : (k : K) (m : List (K × V)) → lookup eq k m ≡ none → delete eq k m ≡ m
  delete-none k [] e = refl
  delete-none k ((j, w) ∷ m) e = go (eq k j) (delete-none k m) e
    where
      go :
          (c : Bool)
          → (lookup eq k m ≡ none → delete eq k m ≡ m)
          → (if c then some w else lookup eq k m) ≡ none
          → (if c then m else (j, w) ∷ delete eq k m) ≡ (j, w) ∷ m
      go true ih h = cc
      go false ih h = ap (λ l. (j, w) ∷ l) (ih h)

  pub lookup-delete-none :
      (i k : K) (m : List (K × V)) → lookup eq i m ≡ none → lookup eq i (delete eq k m) ≡ none
  lookup-delete-none i k [] e = refl
  lookup-delete-none i k ((j, w) ∷ m) e = elim (Bool-cases (eq i j)) [
    | inl t ↦ absurd (some-none (rw t at e))
    | inr t ↦ elim (Bool-cases (eq k j)) [
      | inl c ↦ rw c (rw t at e)
      | inr c ↦ rw c (rw t (lookup-delete-none i k m (rw t at e)))
    ]
  ]

  pub Distinct-delete : (k : K) (m : List (K × V)) → Distinct eq m → Distinct eq (delete eq k m)
  Distinct-delete k [] d = tt
  Distinct-delete k ((j, w) ∷ m) d = elim (Bool-cases (eq k j)) [
    | inl e ↦ rw e d.1
    | inr e ↦ rw e (lookup-delete-none j k m d.0, Distinct-delete k m d.1)
  ]

  pub lookup-delete_self :
      (k : K) (m : List (K × V)) → Distinct eq m → lookup eq k (delete eq k m) ≡ none
  lookup-delete_self k [] d = refl
  lookup-delete_self k ((j, w) ∷ m) d = elim (Bool-cases (eq k j)) [
    | inl e ↦ rw e (subst (λ i. lookup eq i m ≡ none) (sym ((law k j).0 e)) d.0)
    | inr e ↦ rw e (rw e (lookup-delete_self k m d.1))
  ]

  pub Distinct-put : (k : K) (v : V) (m : List (K × V)) → Distinct eq m → Distinct eq (put eq k v m)
  Distinct-put k v m d = (lookup-delete_self k m d, Distinct-delete k m d)

  pub All-delete : (P : K × V → Type 0) (k : K) (m : List (K × V)) → All P m → All P (delete eq k m)
  All-delete P k [] h = tt
  All-delete P k ((j, w) ∷ m) h = elim (Bool-cases (eq k j)) [
    | inl e ↦ rw e h.1
    | inr e ↦ rw e (h.0, All-delete P k m h.1)
  ]

  pub All-lookup :
      (P : K × V → Type 0) (k : K) (v : V) (m : List (K × V))
      → All P m
      → lookup eq k m ≡ some v
      → P (k, v)
  All-lookup P k v [] h e = absurd (some-none (sym e))
  All-lookup P k v ((j, w) ∷ m) h e = elim (Bool-cases (eq k j)) [
    | inl t ↦
        let f : w ≡ v = some_same (rw t at e) in
        let g : j ≡ k = sym ((law k j).0 t) in subst (λ i. P (i, v)) g (subst (λ u. P (j, u)) f h.0)
    | inr t ↦ All-lookup P k v m h.1 (rw t at e)
  ]

  -- An absent key is none of the others.
  pub All-absent :
      (P : K × V → Type 0) (k : K) (m : List (K × V))
      → lookup eq k m ≡ none
      → All P m
      → All (λ (e : K × V). (eq k e.0 ≡ false) × P e) m
  All-absent P k [] e h = tt
  All-absent P k ((j, w) ∷ m) e h = elim (Bool-cases (eq k j)) [
    | inl t ↦ absurd (some-none (rw t at e))
    | inr t ↦ ((t, h.0), All-absent P k m (rw t at e) h.1)
  ]

pub All-map_to :
    {A : Type 0} (P Q : A → Type 0) (xs : List A) → ((x : A) → P x → Q x) → All P xs → All Q xs
All-map_to P Q [] f h = tt
All-map_to P Q (x ∷ xs) f h = (f x h.0, All-map_to P Q xs f h.1)
