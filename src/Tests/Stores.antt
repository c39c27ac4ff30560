-- ===== src/Tests/Stores.antt =====
-- Tests of the persisted stores.
use assistant_context_router.Prelude.{◌≡◌, refl, ◌&&◌, none, some, String, ◌==◌, if◌then◌else◌}
use assistant_context_router.Text.{join, trim}
use assistant_context_router.Keyed.{find_by}
use assistant_context_router.Types.Signals.{
  GovernanceDeliverySeed, GovernanceDeliveryStatus, SignalKind,
}
use assistant_context_router.Routing.SignalRecords.{derive_escalation_dedup_key, stable_id}
use assistant_context_router.State.Escalations.{
  EscalationFile, upsert_open, resolve, record_at, created_record,
}
use assistant_context_router.State.Escalations.Effects.{record_at-upsert_open}
use assistant_context_router.State.Escalations.Invariant.{
  IsConsistent, Reach-IsConsistent, here, next, upserts,
}
use assistant_context_router.State.Escalations.Listing.{after_resolve}
use assistant_context_router.State.Outbox
use assistant_context_router.State.Outbox.{Outcome}
use assistant_context_router.State.Outbox.Invariant as OutboxInvariant
use assistant_context_router.State.Deliveries.Governance.{GovernanceOutbox, governance_key}
use assistant_context_router.Tests.Samples.{sample_seed}

abbrev main_key : String
main_key = "agent:main:main"

abbrev seed_id : String
seed_id = derive_escalation_dedup_key sample_seed

-- The file after one escalation was raised.
abbrev raised : EscalationFile
raised = (upsert_open "I" sample_seed none).0

-- The same file after the escalation was resolved.
abbrev resolved_file : EscalationFile
resolved_file = (resolve "II" main_key seed_id (some "fixed") raised).0

raised_record : record_at main_key seed_id raised ≡ some (created_record seed_id "I" sample_seed)
unfolding upsert_open record_at created_record find_by derive_escalation_dedup_key stable_id join
    trim
raised_record = refl

record_at-upsert_open_example : record_at main_key seed_id (upsert_open "I" sample_seed none).0 ≡ (
    if (sample_seed.canonical_session_key == main_key)
      && (derive_escalation_dedup_key sample_seed == seed_id)
    then some (upsert_open "I" sample_seed none).1
    else record_at main_key seed_id none)
record_at-upsert_open_example = record_at-upsert_open "I" sample_seed none main_key seed_id

Reach-IsConsistent_example : IsConsistent raised
Reach-IsConsistent_example = Reach-IsConsistent (next here (upserts none "I" sample_seed))

-- The file in which the raised escalation was resolved.
abbrev settled : EscalationFile
settled = after_resolve sample_seed (some "fixed") "II" "III" raised raised_record

abbrev alert : GovernanceDeliverySeed
alert = record {
  escalation_id = "escalation:1";
  canonical_session_key = main_key;
  project_id = "acr";
  signal_kind = SignalKind.blocked;
  trace_id = none;
  action_name = none;
  workflow = none;
  reason = "blocked";
  summary = none;
  artifact_ref = none;
  channel_type = "feishu";
  target_kind = "chat";
  target_ref = "oc_1";
  delivery_mode = "channel_message";
  rendered_message = "alert";
}

-- The outbox with one alert.
abbrev sent : GovernanceOutbox
sent = (Outbox.upsert_pending governance_key GovernanceDeliveryStatus.pending "I" alert none).0

abbrev failure : Outcome GovernanceDeliveryStatus
failure = record {
  status = GovernanceDeliveryStatus.failed;
  runtime_target_id = none;
  error_reason = some "offline";
  trace_patch = none;
}

Calls-IsConsistent_example :
    OutboxInvariant.IsConsistent governance_key GovernanceDeliveryStatus.pending sent
Calls-IsConsistent_example =
    OutboxInvariant.Calls-IsConsistent governance_key GovernanceDeliveryStatus.pending
      (OutboxInvariant.Calls.upserts none "I" alert OutboxInvariant.Calls.missing)
