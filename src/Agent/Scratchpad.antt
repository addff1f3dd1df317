-- ===== src/Agent/Scratchpad.antt =====
-- The working memory of a conversation: pkg/agent/scratchpad.go. Texts are valid UTF-8.
pub mod Hints
pub mod Memory
pub mod Bounds
