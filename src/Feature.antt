-- ===== src/Feature.antt =====
-- src/hovorunv2/application/features: what a feature is, and who may see, configure and run it.
pub mod Commands
pub mod Registry
pub mod Policy
pub mod Laws
mod Tests
