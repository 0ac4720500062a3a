-- ===== src/Settings.antt =====
-- src/hovorunv2/application/settings: the windows in which settings are changed.
pub mod Sessions
pub mod Laws
pub mod Once
mod Tests
