-- ===== src/Opkssh.antt =====
-- opkssh/: PK Tokens in SSH certificates, and the command that sshd runs to let a user in.
pub mod SshCert
pub mod Verify
pub mod Keys
