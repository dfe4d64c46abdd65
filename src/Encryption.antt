-- ===== src/Encryption.antt =====
-- include/e2e_encryption.hpp and src/e2e_encryption.cpp: class E2EEncryption.
pub mod Hex
pub mod Wire
pub mod Keys
pub mod Sodium
pub mod Cipher
pub mod Ratchet
mod Examples
