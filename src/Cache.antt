-- ===== src/Cache.antt =====
-- The cache, backend/src/cache/cache.service.ts, and what the services keep in it.
pub mod Redis
pub mod Envelope
pub mod Service
pub mod Laws
pub mod Runtime
pub mod Idempotency
pub mod Rates
pub mod Samples
mod Tests
