-- ===== src/Routing/NotificationDelivery.antt =====
-- routing/business-notification-delivery.ts: where a business notification can be delivered.
pub mod Plan
pub mod Targets
use assistant_context_router.Prelude.{
  ℕ, String, Bool, true, false, not, ◌&&◌, ◌||◌, Option, none, some, [], ◌∷◌, ◌==◌, ◌<|>◌, nat_eq,
  if◌then◌else◌, and_then, or_else, is_some,
}
use Prim.Native.Char.{code}
use Prim.Native.String
use assistant_context_router.Text.{join, ◌⧺◌, trim, is_empty, all_chars, is_alnum}
use assistant_context_router.Types.Routing.{
  NormalizedEnvelope, ReplyTarget, ReplyTargetKind, ReplyMode, ChannelType,
  WorkflowReplyTargetBinding,
}
use assistant_context_router.Types.Signals.{BusinessNotificationRecord, NotificationDeliverySeed}
use assistant_context_router.Routing.SignalRecords.{stable_id, signal_text}
use assistant_context_router.Routing.GovernanceDelivery.{workflow_text, artifact_line}
use assistant_context_router.Routing.ReplyTargets.{
  DeliveryBinding, ResolvedTarget, Resolution, resolved, ReplyFields,
  resolve_feishu_target_from_reply_target, resolve_target_from_delivery_binding,
}

unfoldable pub derive_business_notification_delivery_dedup_key :
    String → Option String → Option String → String
derive_business_notification_delivery_dedup_key notification_id target_ref delivery_mode =
    stable_id "business_notification_delivery" (
      some notification_id
      ∷ some (or_else target_ref "record_only")
      ∷ some (or_else delivery_mode "record_only")
      ∷ [])

abbrev target_line : Option ResolvedTarget → String
target_line none = "Target: record_only"
target_line (some t) = "Target: " ⧺ t.channel_type ⧺ "/" ⧺ t.target_kind ⧺ "/" ⧺ t.target_ref

unfoldable pub render_business_notification_message :
    BusinessNotificationRecord → Option ResolvedTarget → String
render_business_notification_message notification target = join "\n" (
    "ACR business notification"
    ∷ ("Project: " ⧺ notification.project_id)
    ∷ ("Signal: " ⧺ signal_text notification.signal_kind)
    ∷ ("Action: " ⧺ or_else notification.action_name "unknown")
    ∷ ("Workflow: " ⧺ workflow_text notification.workflow)
    ∷ ("Reason: " ⧺ notification.reason)
    ∷ ("Summary: " ⧺ or_else notification.summary "none")
    ∷ ("Trace: " ⧺ or_else notification.trace_id "none")
    ∷ ("Notification ID: " ⧺ notification.notification_id)
    ∷ target_line target
    ∷ artifact_line notification.artifact_ref
    ∷ [])

pub record PlanInput : Type 0 where
  pub notification : BusinessNotificationRecord
  pub envelope : NormalizedEnvelope
  pub default_reply_target : Option WorkflowReplyTargetBinding
  pub default_delivery_target : Option DeliveryBinding

pub record DeliveryPlan : Type 0 where
  pub deliverable : Bool
  pub error_reason : Option String
  pub seed : NotificationDeliverySeed

-- The reply target that is resolved when no delivery target is configured: the envelope's, then the
-- workflow's default.
pub record Candidate : Type 0 where
  pub channel_type : ChannelType
  pub reply_target : Option ReplyFields
  pub missing_target_error_reason : String

unfoldable pub candidate : PlanInput → Candidate
candidate input = elim (input.envelope.reply_target) [
  | some r ↦ record {
    channel_type = input.envelope.channel_type;
    reply_target = some (record {
      target_kind = r.target_kind;
      target_id = r.target_id;
      reply_mode = r.reply_mode;
    });
    missing_target_error_reason = "record_only:no_feishu_reply_target";
  }
  | none ↦ (elim (input.default_reply_target) [
    | some d ↦ record {
      channel_type = d.channel_type;
      reply_target = some (record {
        target_kind = d.target_kind;
        target_id = some d.target_id;
        reply_mode = d.reply_mode;
      });
      missing_target_error_reason = "record_only:no_workflow_binding_target";
    }
    | none ↦ record {
      channel_type = input.envelope.channel_type;
      reply_target = none;
      missing_target_error_reason = "record_only:no_delivery_target";
    }
  ])
]

-- `resolved`
unfoldable pub resolution_of : PlanInput → Resolution
resolution_of input = elim (input.default_delivery_target) [
  | some b ↦ resolve_target_from_delivery_binding (some b)
  | none ↦
      resolve_feishu_target_from_reply_target (candidate input).channel_type
        (candidate input).reply_target (candidate input).missing_target_error_reason
]

-- The reference that is recorded when nothing was resolved: the configured one, or the raw reply id.
abbrev raw_reference : PlanInput → Option String
raw_reference input = elim (input.default_delivery_target) [
  | some b ↦ some b.target_ref
  | none ↦ and_then (candidate input).reply_target (λ r. r.target_id)
]

unfoldable pub build_business_notification_delivery_plan : PlanInput → DeliveryPlan
build_business_notification_delivery_plan input =
    let found = resolution_of input in
    let notification = input.notification in
    record {
      deliverable = is_some found.target;
      error_reason = found.error_reason;
      seed = record {
        notification_id = notification.notification_id;
        project_id = notification.project_id;
        signal_kind = notification.signal_kind;
        trace_id = notification.trace_id;
        action_name = notification.action_name;
        workflow = notification.workflow;
        reason = notification.reason;
        summary = notification.summary;
        artifact_ref = notification.artifact_ref;
        channel_type = and_then found.target (λ t. some t.channel_type);
        target_kind = and_then found.target (λ t. some t.target_kind);
        target_ref = and_then found.target (λ t. some t.target_ref) <|> raw_reference input;
        delivery_mode = and_then found.target (λ t. some t.delivery_mode);
        rendered_message = render_business_notification_message notification found.target;
      };
    }
