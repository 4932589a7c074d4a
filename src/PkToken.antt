-- ===== src/PkToken.antt =====
-- The package pktoken.
pub mod Compact
pub mod Jwx
pub mod SignatureType
pub mod Token
pub mod Serial
pub mod ClientInstance
pub mod CosignerClaims
pub mod Cic
pub mod SignedMessage
