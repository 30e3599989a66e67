-- ===== src/Auth.antt =====
-- sigiledd/src/auth.rs: who calls, and what the caller may do.
-- `Approvals` is the store of human approvals, `Policy` the capability map and the two
-- authorisation decisions; their children prove what they promise.
pub mod Approvals
pub mod Policy
pub mod Token
