-- ===== src/Telemetry.antt =====
-- pkg/telemetry/budget.go: the daily limits on tokens.
pub mod Budget
pub mod Spending
