-- ===== src/Types/Routing.antt =====
-- types.ts: envelopes, route decisions, service and delivery results, router configuration.
use assistant_context_router.Prelude.{String, Bool, Option, List}
use assistant_context_router.Value.{Fields}

pub data SelectedVia : Type 0 where
  manual anchor binding route : SelectedVia

pub data RouteSource : Type 0 where
  manual anchor binding automation protocol unresolved route : RouteSource

pub data WorkflowFamily : Type 0 where
  general dispatch review : WorkflowFamily

pub data ServiceResultKind : Type 0 where
  accepted queued rejected needs_escalation : ServiceResultKind

pub data WorkSurfaceActionName : Type 0 where
  dispatch review review_request review_resolution complete blocked : WorkSurfaceActionName

pub data SourceType : Type 0 where
  human agent automation : SourceType

pub data TargetKind : Type 0 where
  main_session project_session service safe_fail : TargetKind

pub data ReplyTargetKind : Type 0 where
  channel main_session project_session silent_log : ReplyTargetKind

pub data ReplyVisibility : Type 0 where
  human_facing system_facing : ReplyVisibility

pub data ReplyMode : Type 0 where
  direct escalate silent_log : ReplyMode

pub data ChannelType : Type 0 where
  tui wechat feishu discord unknown : ChannelType

pub data DeliveryStatus : Type 0 where
  delivered queued failed unresolved_binding : DeliveryStatus

pub record ArtifactRef : Type 0 where
  pub kind : String
  pub label : Option String
  pub target : String

pub record ReplyTarget : Type 0 where
  pub target_kind : ReplyTargetKind
  pub target_id : Option String
  pub visibility : ReplyVisibility
  pub reply_mode : ReplyMode

pub record NormalizedEnvelope : Type 0 where
  pub source_type : SourceType
  pub channel_type : ChannelType
  pub project_ref : Option String
  pub resolved_project_id : Option String
  pub action_name : Option String
  pub parameters : Option Fields
  pub reply_target : Option ReplyTarget
  pub trace_id : Option String
  pub workflow : Option WorkflowFamily
  pub raw_message_ref : Option String
  pub text : Option String

pub record RouteDecision : Type 0 where
  pub target_kind : TargetKind
  pub target_id : Option String
  pub resolved_project_id : String
  pub project_ref : Option String
  pub route_source : RouteSource
  pub route_reason : String
  pub route_evidence : List String
  pub workflow : Option WorkflowFamily
  pub fallback_to_main_session : Bool
  pub escalation_reason : Option String
  pub safe_fail_reason : Option String

pub data ServiceStatus : Type 0 where
  ok error needs_escalation : ServiceStatus

pub record ServiceResult : Type 0 where
  pub status : ServiceStatus
  pub result_kind : Option ServiceResultKind
  pub work_surface_action : Option WorkSurfaceActionName
  pub summary : Option String
  pub reply_payload : Option String
  pub needs_escalation : Bool
  pub escalation_reason : Option String
  pub run_id : Option String
  pub queue_ref : Option String
  pub artifact_ref : Option ArtifactRef
  pub trace_patch : Option Fields

pub record InternalServiceRequest : Type 0 where
  pub action_name : String
  pub resolved_project_id : String
  pub workflow : Option WorkflowFamily
  pub parameters : Option Fields
  pub trace_id : Option String
  pub reply_target : Option ReplyTarget

pub record RuntimeBinding : Type 0 where
  pub runtime_kind : String
  pub target_ref : String
  pub metadata : Option Fields

pub record DeliveryResult : Type 0 where
  pub status : DeliveryStatus
  pub runtime_target_id : Option String
  pub fallback_used : Bool
  pub error_reason : Option String
  pub trace_patch : Option Fields

-- The values of `ActionRouteConfig["target_kind"]`.
pub data PreferredTarget : Type 0 where
  service project_session : PreferredTarget

pub record ActionRouteConfig : Type 0 where
  pub target_kind : Option PreferredTarget
  pub workflow : Option WorkflowFamily
  pub requires_resolved_project : Option Bool

pub data AcceptanceMode : Type 0 where
  manual_acceptance agent_can_finalize : AcceptanceMode

pub data CompletionNotifyMode : Type 0 where
  dm_on_completion_boundary no_dm_on_completion_boundary : CompletionNotifyMode

pub data StartMode : Type 0 where
  manual_only dispatch_on_create agent_may_claim : StartMode

pub record PolicyDefaults : Type 0 where
  pub acceptance_mode : Option AcceptanceMode
  pub completion_notify_mode : Option CompletionNotifyMode
  pub start_mode : Option StartMode

-- `actions` is an object: its keys with their values. `task_bug_policy` holds its `defaults`.
pub record RouterConfig : Type 0 where
  pub actions : Option (List (String × ActionRouteConfig))
  pub service_binding : Option RuntimeBinding
  pub project_session_binding : Option RuntimeBinding
  pub task_bug_policy : Option (Option PolicyDefaults)

pub record WorkflowReplyTargetBinding : Type 0 where
  pub channel_type : ChannelType
  pub target_kind : ReplyTargetKind
  pub target_id : String
  pub visibility : ReplyVisibility
  pub reply_mode : ReplyMode
