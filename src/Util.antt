-- ===== src/Util.antt =====
-- The package util: base64 as JWTs use it.
pub mod Base64
