-- ===== src/Groups.antt =====
-- The groups of users, backend/src/groups.
pub mod Store
pub mod Service
pub mod Joining
pub mod Laws
pub mod Memberships
mod Tests
