-- ===== src/Mdata.antt =====
-- mdata/: the in-memory store of metrics.
pub mod Boundary
pub mod Errors
pub mod Reorder
pub mod World
pub mod AggMetric
pub mod Float
pub mod Aggregation
pub mod Buckets
pub mod Aggregator
pub mod Construct
pub mod AggMetrics
pub mod Cache
pub mod Accnt
pub mod Ccache
