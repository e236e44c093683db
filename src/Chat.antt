-- ===== src/Chat.antt =====
-- The debate chat (src/debate-chat): the state of one debate and the store that keeps it.
pub mod Types
pub mod State
pub mod Confirm
pub mod Allowed
pub mod Invariant
pub mod Appending
pub mod Ending
pub mod Confirming
pub mod Starting
pub mod Expiring
pub mod Timeout
pub mod Store
pub mod Reloading
pub mod Storing
pub mod Persisting
pub mod Serving
pub mod Closing
