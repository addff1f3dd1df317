-- ===== src/State.antt =====
-- pkg/state/state.go: what is remembered of the user's last channel.
pub mod Manager
pub mod Reload
