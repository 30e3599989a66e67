-- ===== src/Browser.antt =====
-- The browser's authentication boundary, sigiledd/src/browser/mod.rs.
pub mod Requests
pub mod Store
pub mod Sessions
pub mod Capacity
pub mod Reach
pub mod Continuity
pub mod Contexts
pub mod Callbacks
pub mod Logouts
pub mod Tickets
pub mod Uses
