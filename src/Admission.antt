-- ===== src/Admission.antt =====
-- The admission of work: tickets, their lifecycle, and the counters that bound them.
pub mod Record
pub mod Transition
pub mod Valid
pub mod Invariant
pub mod Graph
pub mod Effect
pub mod Traces
pub mod Laws
pub mod Capacity
pub mod Limits
pub mod Space
pub mod Store
pub mod Accounting
pub mod Client
pub mod Reads
pub mod Progress
pub mod Samples
mod Tests
