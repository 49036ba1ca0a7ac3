-- ===== src/Schema/Archive.antt =====
-- schema/archive.go: aggregation method and span, packed into 16 bits.
use metrictank.Common.{
  ℕ, suc, ◌+◌, ◌-◌, ◌*◌, ◌/◌, ◌%◌, ◌^◌, ◌≤◌, ◌<◌, ◌≡◌, inl, inr, Bool, true, false, List, [], ◌∷◌,
  Option, none, some, ◌==◌, if◌then◌else◌, get_or, length, arith, Option-cases,
}

-- `Method`, with its code.
pub data Method : Type 0 where
  avg sum lst max min cnt : Method

abbrev pub method_code : Method → ℕ
method_code avg = 1
method_code sum = 2
method_code lst = 3
method_code max = 4
method_code min = 5
method_code cnt = 6

-- The spans of `init`; the position of a span is its code.
abbrev pub spans : List ℕ
spans =
    2
    ∷ 5
    ∷ 10
    ∷ 15
    ∷ 30
    ∷ 60
    ∷ 90
    ∷ 120
    ∷ 150
    ∷ 300
    ∷ 600
    ∷ 900
    ∷ 1200
    ∷ 1800
    ∷ 45 * 60
    ∷ 3600
    ∷ (3600 + 30 * 60)
    ∷ 2 * 3600
    ∷ 3 * 3600
    ∷ 4 * 3600
    ∷ 5 * 3600
    ∷ 6 * 3600
    ∷ 8 * 3600
    ∷ 12 * 3600
    ∷ 24 * 3600
    ∷ []

-- The position of a span, counted from `k`; of several the last.
unfoldable pub code_from : List ℕ → ℕ → ℕ → Option ℕ
code_from [] k span = none
code_from (x ∷ xs) k span = elim (code_from xs (k + 1) span) [
  | none ↦ if x == span then some k else none
  | some j ↦ some j
]

-- `spanHumanToCode`, as `init` fills it.
unfoldable pub span_human_to_code : ℕ → Option ℕ
unfolding code_from
span_human_to_code span = code_from spans 0 span

-- `spanCodeToHuman`: a code that is not in the map reads as 0.
unfoldable pub span_code_to_human : ℕ → ℕ
span_code_to_human code = get_or spans code 0

-- `IsSpanValid`.
unfoldable pub is_span_valid : ℕ → Bool
unfolding span_human_to_code
is_span_valid span = elim (span_human_to_code span) [ none ↦ false | some code ↦ true ]

-- `NewArchive`: a span that is not in the map gets code 0. `|` joins the free low byte.
unfoldable pub new_archive : Method → ℕ → ℕ
unfolding span_human_to_code
new_archive method span =
    let code : ℕ = elim (span_human_to_code span) [ none ↦ 0 | some c ↦ c ] in
    method_code method + code * 2 ^ 8

-- `Archive.Method`: the code in the low four bits.
unfoldable pub archive_method : ℕ → ℕ
archive_method a = a % 16

-- `Archive.Span`.
unfoldable pub archive_span : ℕ → ℕ
unfolding span_code_to_human
archive_span a = if a == 0 then 0 else span_code_to_human (a / 2 ^ 8 % 2 ^ 8)

code_from-get :
    (xs : List ℕ) (k span : ℕ) {j : ℕ}
    → code_from xs k span ≡ some j
    → (k ≤ j) × (j < k + length xs) × (get_or xs (j - k) 0 ≡ span)
unfolding code_from
code_from-get [] k span e = absurd (ground arith)
code_from-get (x ∷ xs) k span {j} e = elim (Option-cases (code_from xs (k + 1) span)) [
  | inl no_later ↦
      let at_k : j ≡ k = ground arith in
      let same : x ≡ span = ground arith in
      let z : j - k ≡ 0 = omega arith in (omega arith, omega arith, rw z same)
  | inr (i, later) ↦
      let (lo, hi, get) = code_from-get xs (k + 1) span {j = j} (ground arith) in
      let z : j - k ≡ suc (j - (k + 1)) = omega arith in (omega arith, omega arith, rw z get)
]

test_pos : (n : ℕ) → 1 ≤ n → (n == 0) ≡ false
test_pos n h = ground arith

-- An archive of a valid span gives back the method's code and the span, and fits 16 bits.
pub new_archive-parts :
    (method : Method) (span : ℕ)
    → is_span_valid span ≡ true
    → (archive_method (new_archive method span) ≡ method_code method)
      × (archive_span (new_archive method span) ≡ span)
      × (new_archive method span < 2 ^ 16)
unfolding is_span_valid new_archive archive_method archive_span
new_archive-parts method span valid = elim (Option-cases (span_human_to_code span)) [
  | inl bad ↦ absurd (ground arith)
  | inr (code, found) ↦ rw found (parts code (code_from-get spans 0 span {j = code} found))
]
  where
    low : (1 ≤ method_code method) × (method_code method ≤ 6)
    low = ground arith

    parts :
        (code : ℕ)
        → (0 ≤ code) × (code < 0 + length spans) × (get_or spans (code - 0) 0 ≡ span)
        → ((method_code method + code * 2 ^ 8) % 16 ≡ method_code method)
          × ((if method_code method + code * 2 ^ 8 == 0
                then 0
                else get_or spans ((method_code method + code * 2 ^ 8) / 2 ^ 8 % 2 ^ 8) 0)
              ≡ span)
          × (method_code method + code * 2 ^ 8 < 2 ^ 16)
    parts code (lo, hi, get) =
        let z : (method_code method + code * 2 ^ 8) / 2 ^ 8 % 2 ^ 8 ≡ code - 0 =
          omega (arith, low) in
        let nz : (method_code method + code * 2 ^ 8 == 0) ≡ false =
          test_pos _ (omega (arith, low)) in
        (omega (arith, low), rw (nz, z) get, omega (arith, low))
