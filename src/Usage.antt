-- ===== src/Usage.antt =====
-- src/hovorunv2/application/usage: policies, requests for execution, durable charges.
pub mod Policies
pub mod Budgets
pub mod Ledger
pub mod Resolution
mod Tests
