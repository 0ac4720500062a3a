-- ===== src/Budget.antt =====
-- src/hovorunv2/infrastructure/runtime/budget_state.py and budgets.py: reservations of quota, burst and
-- concurrency, and their store.
pub mod Record
pub mod Verify
pub mod Calculate
pub mod Settle
pub mod Store
pub mod Holders
pub mod Holding
pub mod Reread
pub mod Steps
pub mod Histories
pub mod Requests
pub mod Readable
pub mod Bounds
pub mod Grants
pub mod Windows
pub mod Settlement
pub mod Expiry
pub mod Totality
mod Tests
mod StoreTests
