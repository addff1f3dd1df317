-- ===== src/Providers.antt =====
-- pkg/providers: the messages that go to a model, and the router that keeps private ones local.
pub mod Types
pub mod Classifier
pub mod Inputs
pub mod Router
pub mod Score
pub mod Sanitize
pub mod Routing
pub mod Privacy
pub mod Lock
