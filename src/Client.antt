-- ===== src/Client.antt =====
-- The package client.
pub mod Cos
pub mod Request
pub mod Opk
