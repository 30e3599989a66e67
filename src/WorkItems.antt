-- ===== src/WorkItems.antt =====
-- sigiledd/src/work_items.rs: the durable work items of the projects.
-- `Items` is the data and its validation, `Store` the transactions over the file, `Listing` the
-- paged view; `Changes`, `Retries`, `Invariant` and `Durability` prove what they promise.
pub mod Items
pub mod Store
pub mod Listing
pub mod Changes
pub mod Retries
pub mod Invariant
pub mod Durability
