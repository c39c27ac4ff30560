-- ===== src/State/Deliveries/Governance.antt =====
-- state/governance-delivery-outbox.ts
use assistant_context_router.Prelude.{String, Option, List}
use assistant_context_router.Host.{Host}
use assistant_context_router.Types.Signals.{
  GovernanceDeliverySeed, GovernanceDeliveryStatus, GovernanceDeliveryRecord,
}
use assistant_context_router.Routing.GovernanceDelivery.{derive_governance_delivery_dedup_key}
use assistant_context_router.State.Outbox
use assistant_context_router.State.Outbox.{Outbox, Outcome}

abbrev pub GovernanceOutbox : Type 0
GovernanceOutbox = Outbox GovernanceDeliverySeed GovernanceDeliveryStatus

-- The dedup key of the escalation and the target that a seed names.
unfoldable pub governance_key : GovernanceDeliverySeed → String
governance_key seed = derive_governance_delivery_dedup_key seed.escalation_id (record {
  channel_type = seed.channel_type;
  target_kind = seed.target_kind;
  target_ref = seed.target_ref;
  delivery_mode = seed.delivery_mode;
})

unfoldable pub upsert_pending_governance :
    String → GovernanceDeliverySeed → GovernanceOutbox → GovernanceOutbox × GovernanceDeliveryRecord
upsert_pending_governance timestamp seed file =
    Outbox.upsert_pending governance_key GovernanceDeliveryStatus.pending timestamp seed file

unfoldable pub mark_governance :
    String
    → String
    → Outcome GovernanceDeliveryStatus
    → GovernanceOutbox
    → GovernanceOutbox × Option GovernanceDeliveryRecord
mark_governance timestamp id outcome file = Outbox.mark_delivery timestamp id outcome file

unfoldable pub list_governance : Host → String → GovernanceOutbox → List GovernanceDeliveryRecord
list_governance host project_id file =
    Outbox.list_by_project host (λ seed. seed.project_id) project_id file
