-- ===== src/State.antt =====
-- implementation/core/src/state: the persisted stores and the current project.
pub mod CurrentProject
pub mod Escalations
pub mod Outbox
pub mod Deliveries
pub mod Sessions
