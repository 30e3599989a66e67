-- ===== src/Examples.antt =====
-- The theorems at concrete inputs, and runs of the definitions; one file for each part.
pub mod Approvals
pub mod Callers
pub mod Items
pub mod Runs
pub mod Lives
pub mod Repositories
pub mod Agents
pub mod Browsers
pub mod Gateways
pub mod Manifests
pub mod Policies
