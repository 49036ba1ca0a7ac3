-- ===== src/Util/Combinations.antt =====
-- util/combinations.go: every choice of one element from each of some lists.
use metrictank.Common.{
  ℕ, zero, suc, ◌+◌, ◌*◌, Bool, true, false, List, [], ◌∷◌, Option, none, some, leb, if◌then◌else◌,
  get_elem?, length,
}

-- The loop over `indexes`, from the last to the first: an index past the end of its list goes back
-- to 0 and moves the one before it. True is the first index past its end, which ends the outer loop.
unfoldable pub carry : List (List ℕ) → List ℕ → Bool × List ℕ
carry (part ∷ parts) (i ∷ indexes) =
    let (over, rest) = carry parts indexes in
    let i' = if over then i + 1 else i in
    if leb (length part) i' then (true, 0 ∷ rest) else (false, i' ∷ rest)
carry parts indexes = (false, [])

-- The elements at the indexes; `none` is the panic on an empty list.
unfoldable pub pick : List (List ℕ) → List ℕ → Option (List ℕ)
pick (part ∷ parts) (i ∷ indexes) = elim (get_elem? part i) [
  | none ↦ none
  | some a ↦ elim (pick parts indexes) [ none ↦ none | some as' ↦ some (a ∷ as') ]
]
pick parts indexes = some []

-- The last index moves on.
unfoldable pub bump_last : List ℕ → List ℕ
bump_last [] = []
bump_last (i ∷ []) = (i + 1) ∷ []
bump_last (i ∷ j ∷ is) = i ∷ bump_last (j ∷ is)

abbrev pub zeros : List (List ℕ) → List ℕ
zeros [] = []
zeros (part ∷ parts) = 0 ∷ zeros parts

-- `num`.
abbrev pub num_of : List (List ℕ) → ℕ
num_of [] = 1
num_of (part ∷ parts) = length part * num_of parts

-- The outer loop, of at most `n` rounds.
unfoldable pub combine : ℕ → List (List ℕ) → List ℕ → Option (List (List ℕ))
unfolding carry pick bump_last
combine zero parts indexes = none
combine (suc n) parts indexes =
    let (over, indexes') = carry parts indexes in
    let rest = combine n parts (bump_last indexes') in
    if over then some [] else elim (pick parts indexes') [
      | none ↦ none
      | some combo ↦ elim rest [ none ↦ none | some combos ↦ some (combo ∷ combos) ]
    ]

-- `AllCombinationsUint32`. A round makes a combination, so their number and one are enough rounds.
-- With no list the source panics where it moves the last index.
unfoldable pub all_combinations : List (List ℕ) → Option (List (List ℕ))
unfolding combine
all_combinations [] = none
all_combinations (part ∷ parts) =
    combine (num_of (part ∷ parts) + 1) (part ∷ parts) (zeros (part ∷ parts))
