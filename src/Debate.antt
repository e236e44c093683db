-- ===== src/Debate.antt =====
-- The debates domain that the chat and the judge share: its enumerations, rows and the turn rules
-- of src/debates/debate-turn.ts.
pub mod Enums
pub mod Rows
pub mod Schedule
pub mod Turns
