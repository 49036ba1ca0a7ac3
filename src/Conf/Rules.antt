-- ===== src/Conf/Rules.antt =====
-- conf/aggregations.go and conf/indexrules.go: rules that are matched by the name of a metric and
-- kept by their position. A name is its bytes, and a compiled pattern its `MatchString`.
pub mod Lookup
use metrictank.Common.{
  ℕ, zero, suc, ◌+◌, ◌-◌, ◌%◌, ◌^◌, ◌<◌, ◌≡◌, ◌≢◌, ◌⊎◌, refl, sym, ap, ◌∙◌, inl, inr, Bool, true,
  false, List, [], ◌∷◌, Option, none, some, leb, ltb, ◌==◌, if◌then◌else◌, get_elem?, length, arith,
  Bool-cases,
}

abbrev pub Pattern : Type 0
Pattern = List ℕ → Bool

-- `Method`.
pub data Method : Type 0 where
  avg sum lst max min : Method

-- `Aggregation`; the factor is the bits of a float.
pub record Aggregation : Type 0 where
  pub name : List ℕ
  pub pattern : Pattern
  pub x_files_factor : ℕ
  pub aggregation_method : List Method

-- `Aggregations`.
pub record Aggregations : Type 0 where
  pub items : List Aggregation
  pub default_aggregation : Aggregation

-- `IndexRule` and `IndexRules`.
pub record IndexRule : Type 0 where
  pub name : List ℕ
  pub pattern : Pattern
  pub max_stale : ℕ

pub record IndexRules : Type 0 where
  pub rules : List IndexRule
  pub default : IndexRule

-- The loop of both `Match`, from position `i` on: the position as a uint16 and the rule.
unfoldable pub match_from : {A : Type 0} → (A → Pattern) → A → List A → ℕ → List ℕ → ℕ × A
match_from pattern default [] i metric = (i % 2 ^ 16, default)
match_from pattern default (x ∷ xs) i metric =
    let rest = match_from pattern default xs (suc i) metric in
    if pattern x metric then (i % 2 ^ 16, x) else rest

-- `Match` of `Aggregations` and of `IndexRules`.
unfoldable pub match_aggregation : Aggregations → List ℕ → ℕ × Aggregation
unfolding match_from
match_aggregation a metric =
    match_from (λ (x : Aggregation). x.pattern) a.default_aggregation a.items 0 metric

unfoldable pub match_rule : IndexRules → List ℕ → ℕ × IndexRule
unfolding match_from
match_rule a metric = match_from (λ (x : IndexRule). x.pattern) a.default a.rules 0 metric

-- `Get` of `Aggregations` and of `IndexRules`; `none` is an index out of range.
unfoldable pub get_aggregation : Aggregations → ℕ → Option Aggregation
get_aggregation a i =
    if ltb (length a.items % 2 ^ 16) ((i + 1) % 2 ^ 16)
    then some a.default_aggregation
    else get_elem? a.items i

unfoldable pub get_rule : IndexRules → ℕ → Option IndexRule
get_rule a i = if leb (length a.rules % 2 ^ 16) i then some a.default else get_elem? a.rules i

-- `Prunable`: the loop, and the default behind it.
unfoldable pub any_stale : List IndexRule → IndexRule → Bool
any_stale [] default = ltb 0 default.max_stale
any_stale (r ∷ rs) default =
    let rest = any_stale rs default in if ltb 0 r.max_stale then true else rest

unfoldable pub prunable : IndexRules → Bool
unfolding any_stale
prunable a = any_stale a.rules a.default
