-- ===== src/Storage/File.antt =====
-- storage/file/file.go: the backend of JSON files, one folder for each group of methods. `Refines`
-- relates it to the in-memory backend.
pub mod Disk
pub mod Users
pub mod Roster
pub mod Blocking
pub mod VCards
pub mod Messages
pub mod Muc
pub mod PubSub
pub mod Bookmarks
pub mod Documented
pub mod Tables
pub mod Maps
pub mod Refines
pub mod Collisions
