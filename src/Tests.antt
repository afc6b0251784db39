-- ===== src/Tests.antt =====
-- Concrete inputs at which the theorems apply.
mod Crypto
mod Ratchet
mod Encodings
mod Data
mod Storage
mod Addresses
mod Acks
mod Stanzas
mod Plugins
mod Server
mod Formats
mod Files
