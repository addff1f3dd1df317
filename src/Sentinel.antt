-- ===== src/Sentinel.antt =====
-- pkg/sentinel/service.go: the watch over the machine.
pub mod Service
pub mod Throttle
