-- ===== src/Webhooks.antt =====
-- The webhooks of backend/src/webhooks.
pub mod Dispatch
pub mod Delivery
mod Tests
