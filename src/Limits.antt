-- ===== src/Limits.antt =====
-- Limits on what callers may do: the request rate of an API key and the slippage of a swap.
pub mod Rate
pub mod Slippage
mod Tests
