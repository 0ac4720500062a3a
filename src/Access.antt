-- ===== src/Access.antt =====
-- src/hovorunv2/application/access: permission requests, their evidence, and the decision on them, with
-- the policy on groups of src/hovorunv2/application/groups.
pub mod Permissions
pub mod Decision
pub mod Groups
pub mod GroupLaws
pub mod Laws
mod Tests
