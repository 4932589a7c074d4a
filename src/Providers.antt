-- ===== src/Providers.antt =====
-- The package providers.
pub mod Expiration
pub mod Verifier
pub mod GqToken
pub mod Standard
pub mod Gitlab
pub mod Github
