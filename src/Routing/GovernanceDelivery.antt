-- ===== src/Routing/GovernanceDelivery.antt =====
-- routing/governance-delivery.ts: the alert for an escalation, and its delivery key.
use assistant_context_router.Prelude.{String, Option, none, some, [], ◌∷◌, or_else}
use assistant_context_router.Text.{join, ◌⧺◌}
use assistant_context_router.Types.Routing.{WorkflowFamily, ArtifactRef}
use assistant_context_router.Types.Signals.{EscalationRecord, GovernanceDeliverySeed}
use assistant_context_router.Routing.SignalRecords.{stable_id, signal_text}

pub record GovernanceBinding : Type 0 where
  pub channel_type : String
  pub target_kind : String
  pub target_ref : String
  pub delivery_mode : String

abbrev pub workflow_text : Option WorkflowFamily → String
workflow_text none = "unknown"
workflow_text (some WorkflowFamily.general) = "general"
workflow_text (some WorkflowFamily.dispatch) = "dispatch"
workflow_text (some WorkflowFamily.review) = "review"

abbrev pub artifact_line : Option ArtifactRef → String
artifact_line none = "Artifact: none"
artifact_line (some a) =
    "Artifact: " ⧺ a.kind ⧺ " | " ⧺ or_else a.label "unnamed" ⧺ " | " ⧺ a.target

unfoldable pub derive_governance_delivery_dedup_key : String → GovernanceBinding → String
derive_governance_delivery_dedup_key escalation_id binding = stable_id "governance_delivery" (
    some escalation_id
    ∷ some binding.channel_type
    ∷ some binding.target_kind
    ∷ some binding.target_ref
    ∷ some binding.delivery_mode
    ∷ [])

unfoldable pub render_governance_alert_message : EscalationRecord → GovernanceBinding → String
render_governance_alert_message escalation binding = join "\n" (
    "ACR governance escalation"
    ∷ ("Project: " ⧺ escalation.project_id)
    ∷ ("Signal: " ⧺ signal_text escalation.signal_kind)
    ∷ ("Action: " ⧺ or_else escalation.action_name "unknown")
    ∷ ("Workflow: " ⧺ workflow_text escalation.workflow)
    ∷ ("Reason: " ⧺ escalation.reason)
    ∷ ("Summary: " ⧺ or_else escalation.summary "none")
    ∷ ("Trace: " ⧺ or_else escalation.trace_id "none")
    ∷ ("Escalation ID: " ⧺ escalation.escalation_id)
    ∷ ("Target: " ⧺ binding.channel_type ⧺ "/" ⧺ binding.target_kind ⧺ "/" ⧺ binding.target_ref)
    ∷ artifact_line escalation.artifact_ref
    ∷ [])

unfoldable pub build_governance_delivery_seed :
    EscalationRecord → GovernanceBinding → GovernanceDeliverySeed
build_governance_delivery_seed escalation binding = record {
  escalation_id = escalation.escalation_id;
  canonical_session_key = escalation.canonical_session_key;
  project_id = escalation.project_id;
  signal_kind = escalation.signal_kind;
  trace_id = escalation.trace_id;
  action_name = escalation.action_name;
  workflow = escalation.workflow;
  reason = escalation.reason;
  summary = escalation.summary;
  artifact_ref = escalation.artifact_ref;
  channel_type = binding.channel_type;
  target_kind = binding.target_kind;
  target_ref = binding.target_ref;
  delivery_mode = binding.delivery_mode;
  rendered_message = render_governance_alert_message escalation binding;
}
