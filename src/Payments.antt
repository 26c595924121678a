-- ===== src/Payments.antt =====
-- The payments of backend/src/payments/payments.service.ts.
pub mod Creation
pub mod Refund
mod Tests
