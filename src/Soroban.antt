-- ===== src/Soroban.antt =====
-- Calls of the Soroban network: backend/src/soroban/soroban.service.ts.
pub mod Errors
pub mod Retries
pub mod Transactions
pub mod Submitting
mod Tests
