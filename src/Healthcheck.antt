-- ===== src/Healthcheck.antt =====
-- pkg/services/healthcheck/service.go: the monitor of HTTP endpoints.
pub mod Log
pub mod Service
pub mod Failures
