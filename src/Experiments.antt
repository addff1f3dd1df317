-- ===== src/Experiments.antt =====
-- pkg/experiments/store.go: the behavioral experiments.
pub mod Store
pub mod Limit
