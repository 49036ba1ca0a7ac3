-- ===== src/Api.antt =====
-- api/: how a request for data is planned, and how its points are fetched and put on a grid.
pub mod Fix
pub mod Request
pub mod Target
pub mod Plan
