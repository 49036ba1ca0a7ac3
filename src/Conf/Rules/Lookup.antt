-- ===== src/Conf/Rules/Lookup.antt =====
-- `Match` and `Get` of conf/aggregations.go and conf/indexrules.go agree on the positions.
use metrictank.Common.{
  ℕ, suc, ◌+◌, ◌-◌, ◌%◌, ◌^◌, ◌<◌, ◌≡◌, ◌⊎◌, refl, sym, ap, ◌∙◌, inl, inr, true, false, List, [],
  ◌∷◌, none, some, leb, ltb, get_elem?, length, arith, Bool-cases,
}
use metrictank.Conf.Rules.{
  Pattern, Aggregation, Aggregations, IndexRule, IndexRules, match_from, match_aggregation,
  match_rule, get_aggregation, get_rule,
}

-- What the loop finds: a rule at its position, or the default behind the last one.
Finds : {A : Type 0} → A → List A → ℕ → ℕ × A → Type 0
Finds {A} default xs i r =
    ((k : ℕ) × (r.0 ≡ i + k) × (k < length xs) × (get_elem? xs k ≡ some r.1))
    ⊎ ((r.0 ≡ i + length xs) × (r.1 ≡ default))

match_from-Finds :
    {A : Type 0} (pattern : A → Pattern) (default : A) (xs : List A) (i : ℕ) (metric : List ℕ)
    → i + length xs < 2 ^ 16
    → Finds default xs i (match_from pattern default xs i metric)
unfolding match_from Finds
match_from-Finds pattern default [] i metric h = inr (omega (arith, h), refl)
match_from-Finds pattern default (x ∷ xs) i metric h = elim (Bool-cases (pattern x metric)) [
  | inl e ↦ rw (match_from, e) (inl (0, omega (arith, h), omega arith, refl))
  | inr e ↦
      rw (match_from, e)
        (elim (match_from-Finds pattern default xs (suc i) metric (omega (arith, h))) [
          | inl (k, p, lt, g) ↦ inl (suc k, omega (arith, p), omega (arith, lt), g)
          | inr (p, d) ↦ inr (omega (arith, p), d)
        ])
]

-- For fewer than 65535 aggregations, `Get` of the position that `Match` returns is the setting that
-- `Match` returns, for every metric.
get_aggregation-match_aggregation :
    (a : Aggregations) (metric : List ℕ)
    → length a.items < 2 ^ 16 - 1
    → get_aggregation a (match_aggregation a metric).0 ≡ some (match_aggregation a metric).1
unfolding get_aggregation match_aggregation Finds
get_aggregation-match_aggregation a metric h =
    let r = match_aggregation a metric in
    elim (match_from-Finds (λ (x : Aggregation). x.pattern) a.default_aggregation a.items 0 metric
      (omega (arith, h))) [
        | inl (k, p, lt, g) ↦
            let inside : ltb (length a.items % 2 ^ 16) ((r.0 + 1) % 2 ^ 16) ≡ false =
              ground arith in
            rw inside (ap (get_elem? a.items) {x = r.0} {y = k} (omega (arith, p)) ∙ g)
        | inr (p, d) ↦
            let behind : ltb (length a.items % 2 ^ 16) ((r.0 + 1) % 2 ^ 16) ≡ true = ground arith in
            rw behind (ap some (sym d))
      ]

-- For at most 65535 index rules, `Get` of the position that `Match` returns is the rule that `Match`
-- returns, for every metric.
pub get_rule-match_rule :
    (a : IndexRules) (metric : List ℕ)
    → length a.rules < 2 ^ 16
    → get_rule a (match_rule a metric).0 ≡ some (match_rule a metric).1
unfolding get_rule match_rule Finds
get_rule-match_rule a metric h =
    let r = match_rule a metric in
    elim (match_from-Finds (λ (x : IndexRule). x.pattern) a.default a.rules 0 metric
      (omega (arith, h))) [
        | inl (k, p, lt, g) ↦
            let inside : leb (length a.rules % 2 ^ 16) r.0 ≡ false = ground arith in
            rw inside (ap (get_elem? a.rules) {x = r.0} {y = k} (omega (arith, p)) ∙ g)
        | inr (p, d) ↦
            let behind : leb (length a.rules % 2 ^ 16) r.0 ≡ true = ground arith in
            rw behind (ap some (sym d))
      ]

no_elem : {A : Type 0} (xs : List A) → get_elem? xs (length xs) ≡ none
no_elem [] = refl
no_elem (x ∷ xs) = no_elem xs

-- With exactly 65535 aggregations, `Get` panics at the position that `Match` returns for a metric that
-- none of them matches: `i+1` wraps to 0.
pub get_aggregation_wraps :
    (a : Aggregations) (metric : List ℕ)
    → length a.items ≡ 2 ^ 16 - 1
    → (match_aggregation a metric).0 ≡ length a.items
    → get_aggregation a (match_aggregation a metric).0 ≡ none
unfolding get_aggregation
get_aggregation_wraps a metric h e =
    let wrapped : ltb (length a.items % 2 ^ 16) ((length a.items + 1) % 2 ^ 16) ≡ false =
      ground arith in
    rw (e, wrapped) (no_elem a.items)
