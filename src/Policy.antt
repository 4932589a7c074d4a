-- ===== src/Policy.antt =====
-- The packages opkssh/policy and opkssh/commands: which principals a user may log in as.
pub mod Entries
pub mod Loader
pub mod Enforcer
pub mod Add
