-- ===== src/Storage/Memory.antt =====
-- storage/memory/memory.go: the in-memory backend, a module for each of the stores it implements.
pub mod State
pub mod Users
pub mod Roster
pub mod Blocking
pub mod VCards
pub mod Offline
pub mod Archive
pub mod Muc
pub mod PubSub
pub mod Bookmarks
pub mod Commands
pub mod Keyed
