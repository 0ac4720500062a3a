-- ===== src/Worker.antt =====
-- src/hovorunv2/application/jobs/worker_lifecycle_service.py and feature_job_runner.py: what a worker
-- does with a job, over the admission store, the budget store and its ports.
pub mod Action
pub mod World
pub mod Lifecycle
pub mod Notices
pub mod Runner
pub mod Extraction
pub mod Execution
pub mod Recovery
pub mod Preserved
pub mod Sessions
pub mod Stores
pub mod Settled
pub mod Delivery
pub mod Codes
mod Tests
