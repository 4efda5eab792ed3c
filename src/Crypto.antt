-- ===== src/Crypto.antt =====
-- src/backend/cpp/src/sha256.cpp: the digest of a text and of a file, printed as hexadecimal.
pub mod Evp
pub mod Hex
pub mod Sha
pub mod Streaming
