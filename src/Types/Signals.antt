-- ===== src/Types/Signals.antt =====
-- types.ts: signals, notifications, escalations, deliveries, lane events and projections.
use assistant_context_router.Prelude.{ℕ, String, Bool, Option, List}
use assistant_context_router.Value.{Fields}
use assistant_context_router.Types.Routing.{
  WorkflowFamily, ArtifactRef, TargetKind, RouteSource, SourceType, ChannelType, ServiceResult,
  DeliveryResult,
}

pub data SignalKind : Type 0 where
  none blocked review_request high_signal_completion service_error : SignalKind

pub data WorkSurfaceStatus : Type 0 where
  none blocked in_review completed failed : WorkSurfaceStatus

pub data CollabPromotion : Type 0 where
  none persistent_only : CollabPromotion

pub record SignalPromotionDecision : Type 0 where
  pub signal_kind : SignalKind
  pub business_notification : Bool
  pub main_session_escalation : Bool
  pub collab_promotion : CollabPromotion
  pub reason : String

pub data SignalPromotionSource : Type 0 where
  route_decision service_result delivery_result : SignalPromotionSource

-- `status` has the one value "recorded" and is left out.
pub record BusinessNotificationRecord : Type 0 where
  pub notification_id : String
  pub created_at : String
  pub project_id : String
  pub signal_kind : SignalKind
  pub source : SignalPromotionSource
  pub trace_id : Option String
  pub action_name : Option String
  pub workflow : Option WorkflowFamily
  pub reason : String
  pub summary : Option String
  pub run_id : Option String
  pub queue_ref : Option String
  pub artifact_ref : Option ArtifactRef

pub data NotificationDeliveryStatus : Type 0 where
  record_only pending delivered queued failed : NotificationDeliveryStatus

-- The fields of a notification delivery that its caller gives: the argument of `upsertPending`.
pub record NotificationDeliverySeed : Type 0 where
  pub notification_id : String
  pub project_id : String
  pub signal_kind : SignalKind
  pub trace_id : Option String
  pub action_name : Option String
  pub workflow : Option WorkflowFamily
  pub reason : String
  pub summary : Option String
  pub artifact_ref : Option ArtifactRef
  pub channel_type : Option String
  pub target_kind : Option String
  pub target_ref : Option String
  pub delivery_mode : Option String
  pub rendered_message : String

-- What the two outboxes add to the fields that their caller gives.
pub record DeliveryRecord (Seed Status : Type 0) : Type 0 where
  pub seed : Seed
  pub delivery_id : String
  pub created_at : String
  pub updated_at : String
  pub status : Status
  pub runtime_target_id : Option String
  pub error_reason : Option String
  pub trace_patch : Option Fields

abbrev pub NotificationDeliveryRecord : Type 0
NotificationDeliveryRecord = DeliveryRecord NotificationDeliverySeed NotificationDeliveryStatus

pub data EscalationStatus : Type 0 where
  open_ acknowledged resolved : EscalationStatus

-- The fields of an escalation that its caller gives: the argument of `upsertOpen`. `target` has the
-- one value "main_session" and is left out.
pub record EscalationSeed : Type 0 where
  pub canonical_session_key : String
  pub project_id : String
  pub signal_kind : SignalKind
  pub source : SignalPromotionSource
  pub reason : String
  pub summary : Option String
  pub trace_id : Option String
  pub action_name : Option String
  pub workflow : Option WorkflowFamily
  pub run_id : Option String
  pub queue_ref : Option String
  pub artifact_ref : Option ArtifactRef
  pub resolution : Option String

pub record EscalationRecord : Type 0 where
  pub seed : EscalationSeed
  pub open seed use *
  pub escalation_id : String
  pub created_at : String
  pub updated_at : String
  pub status : EscalationStatus

pub data GovernanceDeliveryStatus : Type 0 where
  pending delivered queued failed : GovernanceDeliveryStatus

-- The fields of a governance delivery that its caller gives.
pub record GovernanceDeliverySeed : Type 0 where
  pub escalation_id : String
  pub canonical_session_key : String
  pub project_id : String
  pub signal_kind : SignalKind
  pub trace_id : Option String
  pub action_name : Option String
  pub workflow : Option WorkflowFamily
  pub reason : String
  pub summary : Option String
  pub artifact_ref : Option ArtifactRef
  pub channel_type : String
  pub target_kind : String
  pub target_ref : String
  pub delivery_mode : String
  pub rendered_message : String

abbrev pub GovernanceDeliveryRecord : Type 0
GovernanceDeliveryRecord = DeliveryRecord GovernanceDeliverySeed GovernanceDeliveryStatus

-- The fields of the decision that a lane event keeps.
pub record EventDecision : Type 0 where
  pub target_kind : TargetKind
  pub target_id : Option String
  pub route_reason : String
  pub route_evidence : List String
  pub workflow : Option WorkflowFamily
  pub route_source : RouteSource
  pub escalation_reason : Option String
  pub safe_fail_reason : Option String

-- The fields of the envelope that a lane event keeps: all but the reply target.
pub record EventEnvelope : Type 0 where
  pub source_type : SourceType
  pub channel_type : ChannelType
  pub project_ref : Option String
  pub resolved_project_id : Option String
  pub action_name : Option String
  pub parameters : Option Fields
  pub trace_id : Option String
  pub workflow : Option WorkflowFamily
  pub raw_message_ref : Option String
  pub text : Option String

pub record ProjectSessionEvent : Type 0 where
  pub recorded_at : String
  pub project_id : String
  pub signal_kind : SignalKind
  pub decision : EventDecision
  pub envelope : EventEnvelope
  pub service_result : Option ServiceResult
  pub delivery_result : Option DeliveryResult

pub record ProjectSessionSummary : Type 0 where
  pub project_id : String
  pub total_events : ℕ
  pub blocked_count : ℕ
  pub review_request_count : ℕ
  pub high_signal_completion_count : ℕ
  pub service_error_count : ℕ
  pub latest_signal : SignalKind
  pub latest_event_at : Option String
  pub notable_events : List ProjectSessionEvent

pub record WorkSurfaceProjectionSnapshot : Type 0 where
  pub project_id : String
  pub updated_at : String
  pub signal_kind : SignalKind
  pub surface_status : WorkSurfaceStatus
  pub headline : String
  pub summary : Option String
  pub trace_id : Option String
  pub action_name : Option String
  pub workflow : Option WorkflowFamily
  pub run_id : Option String
  pub queue_ref : Option String
  pub artifact_ref : Option ArtifactRef
