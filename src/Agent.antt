-- ===== src/Agent.antt =====
-- pkg/agent/loop.go: the history that a prompt is given, and the calls of the model and the tools that
-- answer a message.
pub mod Blocks
pub mod Trim
pub mod Recent
pub mod State
pub mod Iteration
pub mod Saved
pub mod Recovery
pub mod Ends
pub mod Background
pub mod Escalation
pub mod Scratchpad
