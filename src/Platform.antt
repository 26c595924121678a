-- ===== src/Platform.antt =====
-- What the services share: the entities of the database, and the calls that they make.
pub mod Entities
pub mod Actions
pub mod Loops
pub mod Runs
pub mod Stores
pub mod Samples
