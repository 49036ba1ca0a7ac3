-- ===== src/Schema.antt =====
-- schema/: data points and the keys of archives.
pub mod Archive
use metrictank.Common.{ℕ}

-- `Point`. A float64 is the number of its bit pattern, `math.Float64bits`.
pub record Point : Type 0 where
  pub val : ℕ
  pub ts : ℕ

-- `AMKey` of schema/key.go: the key of a metric, which is only passed on and may be any number,
-- and the code of its archive.
pub record AmKey : Type 0 where
  pub mkey : ℕ
  pub archive : ℕ
