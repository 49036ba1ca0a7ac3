-- ===== src/Tests/Configured.antt =====
-- The settings of conf/ on concrete values.
use metrictank.Common.{
  ℕ, zero, suc, ap, sym, ◌∙◌, ◌+◌, ◌-◌, ◌^◌, ◌%◌, ◌<◌, ◌≡◌, refl, false, List, [], ◌∷◌, some, none,
  arith, length, replicate, length-replicate, ◌==◌,
}
use metrictank.Conf.Rules.{
  Pattern, Method, Aggregation, Aggregations, IndexRule, IndexRules, match_from, match_aggregation,
  get_aggregation,
}
use metrictank.Conf.Rules.Lookup.{get_aggregation_wraps}
use metrictank.Conf.Retention.{Retention, validate, valid, Nested, validate-Nested}
use metrictank.Conf.Schemas.{Schema, new_schemas, match_schema, get_schema}
use metrictank.Conf.Schemas.Lookup.{get_schema-match_schema}

-- Names of one byte.
abbrev has_byte : ℕ → Pattern
has_byte c [] = false
has_byte c (x ∷ xs) = x == c

abbrev aggregation : ℕ → Aggregation
aggregation c = record {
  name = c ∷ [];
  pattern = has_byte c;
  x_files_factor = 0;
  aggregation_method = Method.sum ∷ [];
}

abbrev aggregations : Aggregations
aggregations = record {
  items = aggregation 97 ∷ aggregation 98 ∷ [];
  default_aggregation = aggregation 0;
}

abbrev rule : ℕ → IndexRule
rule c = record { name = c ∷ []; pattern = has_byte c; max_stale = 60 }

abbrev index_rules : IndexRules
index_rules = record { rules = rule 97 ∷ rule 98 ∷ []; default = rule 0 }

abbrev retention : ℕ → ℕ → Retention
retention period points = record {
  seconds_per_point = period;
  number_of_points = points;
  chunk_span = 600;
  num_chunks = 2;
  ready = 0;
}

abbrev retentions : List Retention
retentions = retention 1 3600 ∷ retention 60 1440 ∷ retention 3600 8760 ∷ []

retentions_accepted : validate retentions ≡ valid
unfolding validate
retentions_accepted = refl

validate-Nested_example : (0 < length retentions) × Nested retentions
validate-Nested_example = validate-Nested retentions retentions_accepted

abbrev schema : ℕ → Schema
schema c = record {
  name = c ∷ [];
  pattern = has_byte c;
  retentions = retentions;
  priority = 0;
  reorder_window = 0;
  reorder_allow_update = false;
}

few_schemas : length (new_schemas (schema 97 ∷ []) (schema 0)).index < 2 ^ 16 - 1
unfolding new_schemas
few_schemas = omega arith

get_schema-match_schema_example :
    (k : ℕ) × (x : Schema) × (match_schema (new_schemas (schema 97 ∷ []) (schema 0)) (97 ∷ []) 120
      ≡ some (k, x))
    × (get_schema (new_schemas (schema 97 ∷ []) (schema 0)) k ≡ some x)
get_schema-match_schema_example =
    get_schema-match_schema (schema 97 ∷ []) (schema 0) (97 ∷ []) 120 few_schemas

-- As many aggregations that match nothing as fit below 2^16.
abbrev never : Aggregation
never = record (aggregation 0) { pattern = λ metric. false }

abbrev nevers : ℕ → Aggregations
nevers n = record { items = replicate n never; default_aggregation = aggregation 0 }

match_nevers :
    (n i : ℕ) (metric : List ℕ)
    → (match_from (λ (x : Aggregation). x.pattern) (aggregation 0) (replicate n never) i metric).0
      ≡ (i + n) % 2 ^ 16
unfolding match_from
match_nevers zero i metric = ap (λ k. k % 2 ^ 16) {x = i} {y = i + 0} (omega arith)
match_nevers (suc n) i metric =
    match_nevers n (suc i) metric
    ∙ ap (λ k. k % 2 ^ 16) {x = suc i + n} {y = i + suc n} (omega arith)

none_matches :
    (n : ℕ) → n < 2 ^ 16 → (match_aggregation (nevers n) (98 ∷ [])).0 ≡ length (nevers n).items
unfolding match_aggregation
none_matches n h = match_nevers n 0 (98 ∷ []) ∙ omega (arith, h) ∙ sym (length-replicate n never)

get_aggregation_wraps_example :
    get_aggregation (nevers (2 ^ 16 - 1)) (match_aggregation (nevers (2 ^ 16 - 1)) (98 ∷ [])).0
    ≡ none
get_aggregation_wraps_example =
    get_aggregation_wraps (nevers (2 ^ 16 - 1)) (98 ∷ []) (length-replicate (2 ^ 16 - 1) never)
      (none_matches (2 ^ 16 - 1) (omega arith))
