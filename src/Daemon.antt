-- ===== src/Daemon.antt =====
-- cmd/xmppd: the server program's session router, rate limiter, account registration and stream
-- handling.
pub mod Router
pub mod Limiter
pub mod Forms
pub mod Registration
pub mod Text
pub mod World
pub mod Stream
