-- ===== src/Jobs.antt =====
-- sigiledd/src/jobs.rs: the batch engine.
-- `Runs` is the state that the engine keeps, `Engine` the trigger and the life of one run,
-- `Schedule` the scheduler's windows, `Verbs` the verb `run` and a tick of the scheduler; `Latch`
-- and `History` prove what the engine promises.
pub mod Runs
pub mod Engine
pub mod Schedule
pub mod Latch
pub mod History
pub mod Verbs
