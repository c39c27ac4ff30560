-- ===== src/State/Deliveries/Notification.antt =====
-- state/business-notification-delivery-outbox.ts
use assistant_context_router.Prelude.{String, Option, List}
use assistant_context_router.Host.{Host}
use assistant_context_router.Types.Signals.{
  NotificationDeliverySeed, NotificationDeliveryStatus, NotificationDeliveryRecord,
}
use assistant_context_router.Routing.NotificationDelivery.{
  derive_business_notification_delivery_dedup_key,
}
use assistant_context_router.State.Outbox
use assistant_context_router.State.Outbox.{Outbox, Outcome}

abbrev pub NotificationOutbox : Type 0
NotificationOutbox = Outbox NotificationDeliverySeed NotificationDeliveryStatus

-- The dedup key of the notification and the target that a seed names.
unfoldable pub notification_key : NotificationDeliverySeed → String
notification_key seed =
    derive_business_notification_delivery_dedup_key seed.notification_id seed.target_ref
      seed.delivery_mode

unfoldable pub upsert_pending_notification :
    String
    → NotificationDeliverySeed
    → NotificationOutbox
    → NotificationOutbox × NotificationDeliveryRecord
upsert_pending_notification timestamp seed file =
    Outbox.upsert_pending notification_key NotificationDeliveryStatus.pending timestamp seed file

unfoldable pub mark_notification :
    String
    → String
    → Outcome NotificationDeliveryStatus
    → NotificationOutbox
    → NotificationOutbox × Option NotificationDeliveryRecord
mark_notification timestamp id outcome file = Outbox.mark_delivery timestamp id outcome file

unfoldable pub list_notifications :
    Host → String → NotificationOutbox → List NotificationDeliveryRecord
list_notifications host project_id file =
    Outbox.list_by_project host (λ seed. seed.project_id) project_id file
