-- ===== src/Tools.antt =====
-- pkg/tools: what a tool returns, the tools themselves, and the loop that runs them for a model.
pub mod Result
pub mod Loop
pub mod Transcript
pub mod Args
pub mod Registry
pub mod Workflow
pub mod WorkflowRuns
pub mod WorkflowOutcome
pub mod WorkflowFile
pub mod Tasks
pub mod TaskTexts
pub mod TaskList
pub mod TaskChanges
pub mod TaskStore
pub mod Knowledge
pub mod Files
pub mod Wallet
pub mod Subagent
