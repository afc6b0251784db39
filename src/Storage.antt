-- ===== src/Storage.antt =====
-- Package storage: the entities that every backend keeps, and the backends.
pub mod Model
pub mod Memory
pub mod File
