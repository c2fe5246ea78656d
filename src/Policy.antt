-- ===== src/Policy.antt =====
-- packages/policy-engine/src/index.ts: the policy record, its validation, the signing gate and the
-- bridge from a stored proposal to a ceremony. The children are one part each.
pub mod Types
pub mod Messages
pub mod Validate
pub mod Gate
pub mod Bridge
