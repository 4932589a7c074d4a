-- ===== src/Cosigner.antt =====
-- The package cosigner.
pub mod Verifier
pub mod AuthIdIssuer
pub mod Store
pub mod AuthCosigner
