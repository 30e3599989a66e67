-- ===== src/Sessions.antt =====
-- sigiledd/src/sessions.rs and sigiledd/src/reaper.rs: the life of a session.
-- `Records` is the state, `World` the requests to the outside and the handlers' monad, `Ends` its
-- rules; `Close`, `Recycle` and `Reap` are the handlers, and their children prove what they promise.
pub mod Records
pub mod World
pub mod Ends
pub mod Close
pub mod Recycle
pub mod Reap
pub mod Sweep
pub mod Boot
pub mod Orphans
pub mod Open
