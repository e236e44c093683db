-- ===== src/Examples.antt =====
-- The theorems at concrete inputs.
pub mod Schedules
pub mod Debates
pub mod Storage
pub mod Tasks
pub mod Jobs
pub mod Sessions
pub mod Invites
pub mod Judgments
pub mod Pipeline
pub mod Analysis
