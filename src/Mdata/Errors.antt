-- ===== src/Mdata/Errors.antt =====
-- mdata/errors/errors.go: the two reasons to refuse a point.
pub data Error : Type 0 where
  metric_too_old metric_new_value_for_timestamp : Error

pub data Result {ℓ} (A : Type ℓ) : Type ℓ where
  ok : A → Result A
  err : Error → Result A
