-- ===== src/Crypto.antt =====
-- src/crypto and src/salted-hash.ts: encodings of bytes and the salted hash of a context.
pub mod Base64
pub mod SaltedHash
mod Tests
