-- ===== src/Channels.antt =====
-- pkg/channels: who may write to the assistant (base.go), and how its messages are sent (manager.go).
pub mod Base
pub mod Access
pub mod Manager
pub mod Retry
