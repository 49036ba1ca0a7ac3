-- ===== src/Conf/Schemas.antt =====
-- conf/schemas.go: the schema of a metric, by its name and the interval of its points.
pub mod Lookup
use metrictank.Common.{
  ℕ, zero, suc, ◌+◌, ◌-◌, ◌%◌, ◌^◌, ◌<◌, ◌≤◌, ◌≡◌, ◌⊎◌, refl, sym, ap, ◌∙◌, inl, inr, Bool, true,
  false, List, [], ◌∷◌, ◌++◌, Option, none, some, leb, ltb, ◌==◌, if◌then◌else◌, get_elem?, length,
  arith, Bool-cases, append_assoc, subst,
}
use metrictank.Tsz.Bits.{length-append}
use metrictank.Conf.Rules.{Pattern}
use metrictank.Conf.Retention.{Retention}

-- `Schema`; of the retentions, the archives.
pub record Schema : Type 0 where
  pub name : List ℕ
  pub pattern : Pattern
  pub retentions : List Retention
  pub priority : ℕ
  pub reorder_window : ℕ
  pub reorder_allow_update : Bool

-- `Schemas`.
pub record Schemas : Type 0 where
  pub raw : List Schema
  pub index : List Schema
  pub default_schema : Schema

-- The loop of `BuildIndex` over a schema's archives, with `Sub`: a schema for every suffix.
unfoldable pub sub_schemas : Schema → List Retention → List Schema
sub_schemas s [] = []
sub_schemas s (r ∷ rets) = record s { retentions = r ∷ rets } ∷ sub_schemas s rets

unfoldable pub expand : List Schema → List Schema
unfolding sub_schemas
expand [] = []
expand (s ∷ ss) = sub_schemas s s.retentions ++ expand ss

-- `NewSchemas`, with `BuildIndex`: the default schema, which the source parses, is an argument.
unfoldable pub new_schemas : List Schema → Schema → Schemas
unfolding expand
new_schemas raw default = record {
  raw = raw;
  index = expand (raw ++ default ∷ []);
  default_schema = default;
}

-- The loop over the archives from position `j` on: that before the first one with a longer period than
-- the interval, or the first; else the last. A schema of the index has an archive.
unfoldable pub best_fit : List Retention → ℕ → ℕ → ℕ
best_fit [] j interval = j - 1
best_fit (r ∷ rets) j interval =
    let rest = best_fit rets (suc j) interval in
    if ltb interval r.seconds_per_point then j - 1 else rest

-- A position as a uint16, and the schema there; `none` is an index out of range.
abbrev pub at_position : List Schema → ℕ → Option (ℕ × Schema)
at_position index pos = elim (get_elem? index pos) [ none ↦ none | some s ↦ some (pos % 2 ^ 16, s) ]

-- The end of `Match`, for the schema at position `i` that the metric matches.
unfoldable pub pick : List Schema → ℕ → Schema → ℕ → Option (ℕ × Schema)
unfolding best_fit
pick index i s interval =
    if interval == 0
    then some (i % 2 ^ 16, s)
    else at_position index (i + best_fit s.retentions 0 interval)

-- The loop of `Match` from position `i` on, of at most `n` rounds; `none` is a panic or no end.
unfoldable pub match_loop : ℕ → Schemas → ℕ → List ℕ → ℕ → Option (ℕ × Schema)
unfolding pick
match_loop zero s i metric interval = none
match_loop (suc n) s i metric interval = elim (get_elem? s.index i) [
  | none ↦ some (length s.index % 2 ^ 16, s.default_schema)
  | some x ↦
      let rest = match_loop n s (i + length x.retentions) metric interval in
      if x.pattern metric then pick s.index i x interval else rest
]

-- `Match`. A schema of the index has an archive, so each round moves on, and one more than the index
-- has entries is enough.
unfoldable pub match_schema : Schemas → List ℕ → ℕ → Option (ℕ × Schema)
unfolding match_loop
match_schema s metric interval = match_loop (suc (length s.index)) s 0 metric interval

-- `Get`.
unfoldable pub get_schema : Schemas → ℕ → Option Schema
get_schema s i =
    if ltb (length s.index % 2 ^ 16) ((i + 1) % 2 ^ 16)
    then some s.default_schema
    else get_elem? s.index i
