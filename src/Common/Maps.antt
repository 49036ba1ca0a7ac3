-- ===== src/Common/Maps.antt =====
-- Maps as lists of entries, of which the first with a key counts.
use mathlib.Core.Path.{◌≡◌, refl, sym, ◌∙◌}
use mathlib.Core.Logic.{◌↔◌, inl, inr}
use mathlib.Core.Bool.{Bool, true, false}
use mathlib.Core.List.{List, [], ◌∷◌}
use mathlib.Core.Option.{Option, none, some}
use metrictank.Common.Tests.{if◌then◌else◌, Bool-cases}

module _ {K V : Type 0} (eq : K → K → Bool) where
  unfoldable pub get : K → List (K × V) → Option V
  get k [] = none
  get k ((j, v) ∷ m) = let rest = get k m in if eq j k then some v else rest

  -- Every entry of a key goes.
  unfoldable pub erase : K → List (K × V) → List (K × V)
  erase k [] = []
  erase k ((j, v) ∷ m) = let rest = erase k m in if eq j k then rest else (j, v) ∷ rest

  unfoldable pub put : K → V → List (K × V) → List (K × V)
  unfolding erase
  put k v m = (k, v) ∷ erase k m

module _ {K V : Type 0} (eq : K → K → Bool) (law : (a b : K) → (eq a b ≡ true) ↔ (a ≡ b)) where
  pub get-erase :
      (i k : K) (m : List (K × V)) → get eq i (erase eq k m) ≡ (if eq k i then none else get eq i m)
  unfolding get erase
  get-erase i k [] = elim (Bool-cases (eq k i)) [ inl e ↦ rw e refl | inr e ↦ rw e refl ]
  get-erase i k ((j, v) ∷ m) = elim (Bool-cases (eq j k)) [
    | inl e ↦
        let same : j ≡ k = (law j k).0 e in
        rw e (
          get-erase i k m
          ∙ elim (Bool-cases (eq k i)) [ inl f ↦ rw f refl | inr f ↦ rw (f, same, f) refl ])
    | inr e ↦ rw e (elim (Bool-cases (eq j i)) [
      | inl f ↦
          let same : j ≡ i = (law j i).0 f in
          let g : eq k i ≡ false = elim (Bool-cases (eq k i)) [
            | inl t ↦
                let k_i : k ≡ i = (law k i).0 t in
                let j_k : j ≡ k = same ∙ sym k_i in let bad : eq j k ≡ true = (law j k).1 j_k in cc
            | inr t ↦ t
          ] in
          rw (f, g) refl
      | inr f ↦ rw f (get-erase i k m)
    ])
  ]

  pub get-put :
      (i k : K) (v : V) (m : List (K × V))
      → get eq i (put eq k v m) ≡ (if eq k i then some v else get eq i m)
  unfolding get put
  get-put i k v m = elim (Bool-cases (eq k i)) [
    | inl e ↦ rw e refl
    | inr e ↦ rw e (get-erase i k m ∙ rw e refl)
  ]
