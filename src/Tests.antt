-- ===== src/Tests.antt =====
-- Runs of the code on small inputs, and the theorems at inputs that meet their hypotheses.
mod CronCases
mod SessionCases
mod ToolsCases
mod ProvidersCases
mod StateCases
mod ChannelsCases
mod BusCases
mod AgentCases
mod WorkflowCases
mod TaskCases
mod GraphCases
mod FilesCases
mod ScratchpadCases
mod WalletCases
mod SubagentCases
