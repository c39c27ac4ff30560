-- ===== src/Routing.antt =====
-- implementation/core/src/routing: from an envelope to a decision, a signal and its records.
pub mod Decision
pub mod SignalPromotion
pub mod SignalRecords
pub mod GovernanceDelivery
pub mod ReplyTargets
pub mod NotificationDelivery
pub mod Lane
pub mod Services
pub mod Config
pub mod Projection
