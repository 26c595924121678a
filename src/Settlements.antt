-- ===== src/Settlements.antt =====
-- The settlement service, backend/src/settlements/settlements.service.ts.
pub mod Creation
pub mod Batching
pub mod Transfer
pub mod Admin
mod Tests
