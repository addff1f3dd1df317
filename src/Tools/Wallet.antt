-- ===== src/Tools/Wallet.antt =====
-- The Lightning wallet tool of pkg/tools/wallet.go.
pub mod Log
pub mod Requests
pub mod Payments
pub mod Limits
