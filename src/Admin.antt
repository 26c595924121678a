-- ===== src/Admin.antt =====
-- The administration of merchants: backend/src/admin/admin.service.ts.
pub mod Base32
pub mod Totp
pub mod Store
pub mod Service
pub mod Records
pub mod Controller
pub mod Keys
pub mod Accounts
pub mod Bulk
pub mod Fees
pub mod Restoring
mod Tests
