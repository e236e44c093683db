-- ===== src/Judge.antt =====
-- The judging pipeline (src/judge): the table of its tasks and the worker that runs them.
pub mod Task
pub mod Rows
pub mod Results
pub mod Scores
pub mod Request
pub mod Judging
pub mod Slots
pub mod Validator
pub mod Analyzer
pub mod Checker
pub mod Service
pub mod Tasks
pub mod Queue
pub mod Worker
