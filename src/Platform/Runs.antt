-- ===== src/Platform/Runs.antt =====
-- What a run of a method tells of its parts, and what it keeps whether it returns or throws.
mod Cases
mod Ends
pub use Cases.*
pub use Ends.*
