-- ===== src/Crypto.antt =====
-- The modules of src/crypto.
pub mod Aead
pub mod Kex
pub mod Mlkem
pub mod Mldsa
mod Tests
