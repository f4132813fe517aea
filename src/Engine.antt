-- ===== src/Engine.antt =====
-- The retrieval engine (internal/engine/*.go).
pub mod Access
pub mod Examples
pub mod Fetch
pub mod Flights
pub mod Search
