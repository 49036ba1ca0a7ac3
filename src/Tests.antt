-- ===== src/Tests.antt =====
-- The theorems on concrete values, a module per part of the library.
pub mod Reorder
pub mod Chunks
pub mod Consolidate
pub mod Iterate
pub mod Account
pub mod Cached
pub mod Bucket
pub mod Configured
pub mod Numbers
pub mod Requests
pub mod Ccached
pub mod Registry
