-- ===== src/Lib.antt =====
-- Metrictank, a multi-tenant timeseries database: the in-memory path of a metric's points.
--
-- A point that comes in goes to the `AggMetric` of its series (mdata/aggmetric.go). With a reorder
-- window it first waits in the `ReorderBuffer` (mdata/reorder_buffer.go), then it is pushed to the
-- current chunk of a ring (mdata/chunk), whose series is a compressed bit stream
-- (mdata/chunk/tsz), and to the aggregators (mdata/aggregator.go), which write their own series. A
-- chunk that is closed goes to the chunk cache (mdata/cache) and to the write queue of the store.
-- The accounting of the cache (mdata/cache/accnt) keeps its size within a limit. Points that are read
-- may be consolidated in groups (consolidation/consolidate.go). Which archives a metric has, and how
-- they aggregate, is matched by its name (conf), and the metrics of a node are kept by organisation
-- and key (mdata/aggmetrics.go). A request for data is planned
-- (api/query_engine.go): the archive is chosen by the time range and the number of points. Then its
-- points are fetched, put on the grid of the archive's interval, and consolidated to the interval of
-- the output (api/dataprocessor.go). Series are then brought to a common interval and aggregated
-- (expr).
--
-- Files:
--   Common          numbers, tests on them, lists, 32-bit words and positions in a ring
--   Schema          schema/point.go, schema/key.go (Point, AMKey); Archive: schema/archive.go
--   Util            Atomic: util/atomic.go (AtomicBumpUint32); Lcm: util/util.go (Min, Max, Lcm);
--                   Combinations: util/combinations.go
--   Tsz             Bstream: mdata/chunk/tsz/bstream.go (writeBit, writeByte, writeBits); Breader:
--                   its reading half; SeriesLong: mdata/chunk/tsz/tszlong.go (Push, Finish),
--                   finish.go; IterLong: the iterator of tszlong.go (dod, Next, Iter); Bits, Xor:
--                   lists of bits and `^` on words
--   Chunk           mdata/chunk/chunk.go, encode.go, format.go; Spans: spans.go; IterGen: itergen.go
--   Mdata           Boundary: AggBoundary; Errors: mdata/errors; Reorder: reorder_buffer.go;
--                   World: cwr.go and what a step reads and writes outside of the metric;
--                   AggMetric: aggmetric.go (persist, pushToCache, add), with Write (Add, GC) and
--                   Read (Get); Float, Aggregation, Buckets, Aggregator: aggregation.go,
--                   aggregator.go;
--                   Cache: mdata/cache/ccache_metric.go, with Search and AddRange;
--                   Construct: NewAggMetric, NewAggregator, GetAggregated and the operations that
--                   sync the save state; AggMetrics: aggmetrics.go;
--                   Accnt: mdata/cache/accnt/lru.go, flat_accnt.go; Ccache: mdata/cache/ccache.go
--   Api             Fix: api/dataprocessor.go (alignForward, alignBackward, Fix, divide); Request:
--                   api/models/request.go; Target: api/dataprocessor.go (newRequestContext,
--                   getSeriesFixed, getTarget); Plan: api/query_engine.go
--   Conf            Rules: conf/aggregations.go, conf/indexrules.go; Retention: conf/retention.go
--                   (Validate); Schemas: conf/schemas.go (BuildIndex, Match, Get)
--   Batch           batch/aggregator.go
--   Consolidation   consolidation/consolidate.go, and the archives and functions (GetAggFunc) of
--                   consolidation.go
--   Expr            SeriesAggregators: expr/seriesaggregators.go; Normalize: expr/normalize.go
--   Tests           the theorems on concrete values
--
-- A struct is a record, an enum a data type, and a method that mutates its receiver returns the new
-- value. Every method holds its lock from start to end, so it is one step. Words of 32 and 64 bits
-- are natural numbers with the wrap-around written out (`add32`, `sub32`, `mul32`, `% 2 ^ 64`).
-- Errors are values of a result type; `none` stands for a panic, an index out of range included. A
-- map is a list of entries. Values of points are the bits of a float; the float operations that the
-- aggregation uses are a record of functions (Mdata/Float), those of the batch functions another
-- (Batch), from which `GetAggFunc` picks what consolidation applies to a group. The clock, the
-- cluster's role and the settings are the record `Env`; the write queue and the cache pushes are the
-- lists of `World`.
--
-- Loops run on fuel where the source's loop is not bounded by its own counter. The reorder buffer's
-- `Get` and `persist` go round a ring once at most, so the number of slots is enough. The loops of
-- `AggMetric.Get` have the number of chunks as fuel, those of the cache's searches one more than the
-- number of cached chunks; beyond it the model yields `none`. The loop of evictions of the
-- cache's accounting has the number of targets in its list as fuel, its `reset` one more, and the
-- loop of `Schemas.Match` one more than its index has entries. The loop of nulls in `NormalizeTo`
-- advances by the interval, so its fuel is the number of intervals up to the first point and two.
--
-- Not modelled: metrics and log lines, the network, the databases and the command line; the
-- older series of tsz.go; the parsing of the configuration; the index; the parsing of queries, and
-- of their functions all but the aggregation across series.
pub mod Common
pub mod Schema
pub mod Util
pub mod Tsz
pub mod Chunk
pub mod Mdata
pub mod Api
pub mod Batch
pub mod Expr
pub mod Conf
pub mod Consolidation
pub mod Tests
