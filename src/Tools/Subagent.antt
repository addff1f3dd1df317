-- ===== src/Tools/Subagent.antt =====
-- Subagents: pkg/tools/subagent.go.
pub mod Manager
pub mod Runs
pub mod Finished
