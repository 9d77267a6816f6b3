-- ===== src/Domain.antt =====
-- internal/domain: value objects, entities, events and policies. A string type of the source is
-- `Text`, but for the receipt statuses and failure reasons, which are data types here: the
-- program makes their values by the constants and by the Parse functions only, and "" is `unset`.
pub mod Error
pub mod Values
pub mod Status
pub mod Observation
pub mod StatusChanged
pub mod Tracking
pub mod Allocation
pub mod Policy
pub mod Issuance
mod Examples
