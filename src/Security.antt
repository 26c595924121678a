-- ===== src/Security.antt =====
-- The two guards that let addresses in: backend/src/security/ip-allowlist.guard.ts for the administration and
-- backend/src/prometheus/metrics.guard.ts for the metrics.
pub mod Addresses
pub mod Guards
pub mod Metrics
pub mod Bits
pub mod Networks
pub mod Laws
mod Tests
