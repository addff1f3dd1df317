-- ===== src/Session.antt =====
-- pkg/session/manager.go: the conversations, in memory and as files.
pub mod Manager
pub mod Files
pub mod History
pub mod Disk
pub mod Restart
