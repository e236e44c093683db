-- ===== src/Invitations.antt =====
-- Invitations to a debate (src/debate-invitations): the stored invitations and their transitions.
pub mod Service
pub mod Transitions
