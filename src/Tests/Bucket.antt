-- ===== src/Tests/Bucket.antt =====
-- mdata/aggregation.go on concrete values, with whole numbers for the floats.
use metrictank.Common.{ℕ, ◌+◌, List, [], ◌∷◌, ◌==◌, min, max}
use metrictank.Mdata.Float.{FloatOps}
use metrictank.Mdata.Aggregation.{Aggregation, reset}
use metrictank.Mdata.Buckets.{Statistics, add_values, add_values-reset}

abbrev whole : FloatOps
whole = record {
  f_zero = 0;
  f_one = 1;
  max_float = 1000;
  neg_max_float = 0;
  f_add = λ a b. a + b;
  f_min = λ a b. min a b;
  f_max = λ a b. max a b;
  f_is_zero = λ a. a == 0;
}

abbrev used : Aggregation
used = record { min = 3; max = 5; sum = 8; cnt = 2; lst = 5 }

abbrev values : List ℕ
values = 7 ∷ 4 ∷ 9 ∷ []

add_values-reset_example : Statistics whole 5 (add_values whole (reset whole used) values) values
add_values-reset_example = add_values-reset whole used values
