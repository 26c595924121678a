-- ===== src/Monitor.antt =====
-- Watching the deposit account: backend/src/stellar/stellar-monitor.service.ts, with `verifyPayment` of
-- backend/src/stellar/stellar.service.ts.
pub mod Verification
pub mod Confirmation
pub mod Scan
pub mod Escrow
pub mod Indexer
mod Tests
