-- ===== src/State/Deliveries.antt =====
-- The two outboxes: state/governance-delivery-outbox.ts and
-- state/business-notification-delivery-outbox.ts.
pub mod Governance
pub mod Notification
