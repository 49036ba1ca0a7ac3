-- ===== src/Mdata/World.antt =====
-- What the operations of mdata/ read from outside and what they leave there: the clock, the role of
-- the node, the settings, the write queue of the store and the calls of the chunk cache.
use metrictank.Common.{ℕ, Bool, List}
use metrictank.Schema.{AmKey}
use metrictank.Chunk.IterGen.{IterGen}

-- What an operation reads: `time.Now().Unix()`, one reading for the operation;
-- `cluster.Manager.IsPrimary()`; `enforceFutureTolerance`; whether there is a `cachePusher`.
pub record Env : Type 0 where
  pub now : ℕ
  pub is_primary : Bool
  pub enforce_future_tolerance : Bool
  pub has_cache_pusher : Bool

-- `ChunkWriteRequest` of mdata/cwr.go. The callback is the call `SyncChunkSaveState(t0, true)` of
-- the metric that the request comes from.
pub record ChunkWriteRequest : Type 0 where
  pub key : AmKey
  pub ttl : ℕ
  pub t0 : ℕ
  pub content : List ℕ
  pub timestamp : ℕ

-- The calls `a.store.Add` and `a.cachePusher.AddIfHot`, oldest first.
pub record World : Type 0 where
  pub stored : List ChunkWriteRequest
  pub pushed : List (AmKey × IterGen)
