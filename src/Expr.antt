-- ===== src/Expr.antt =====
-- expr/: functions on series.
pub mod SeriesAggregators
pub mod Normalize
