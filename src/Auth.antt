-- ===== src/Auth.antt =====
-- Sessions (src/auth): the refresh tokens and their rotation.
pub mod RefreshTokens
pub mod Rotation
