-- ===== src/Security.antt =====
-- Session security: crates/aetherlink-core/src/security.rs.
pub mod Errors
pub mod Hex
pub mod Replay
pub mod Crypto
pub mod Trust
pub mod Verify
