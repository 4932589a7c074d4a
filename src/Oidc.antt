-- ===== src/Oidc.antt =====
-- The package oidc: tokens in compact form, their claims, and the JSON form of a JWS.
pub mod Compact
pub mod Claims
pub mod Jwt
pub mod Jws
