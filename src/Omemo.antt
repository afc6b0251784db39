-- ===== src/Omemo.antt =====
-- crypto/omemo: the cryptography that it calls, the Double Ratchet, sessions, encodings and the in-memory key store.
pub mod Primitives
pub mod Ratchet
pub mod Wire
pub mod MemoryStore
pub mod Session
