-- ===== src/Tsz.antt =====
-- mdata/chunk/tsz/: the compressed time series of a chunk.
pub mod Bstream
pub mod Bits
pub mod Xor
pub mod Breader
pub mod IterLong
pub mod SeriesLong
