-- ===== src/Jobs.antt =====
-- src/hovorunv2/application/jobs: the immutable envelope of a job and the record of its settlement.
pub mod Envelope
pub mod Settlement
pub mod Laws
mod Tests
