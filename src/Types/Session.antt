-- ===== src/Types/Session.antt =====
-- types.ts: the session state and its patch. In a patch `none` is undefined and `some none` is null.
use assistant_context_router.Prelude.{String, Bool, Option, List}
use assistant_context_router.Value.{Value, Fields}
use assistant_context_router.Types.Routing.{
  SelectedVia, RouteSource, WorkflowFamily, SourceType, TargetKind, ChannelType, DeliveryStatus,
}

pub record RouteTrace : Type 0 where
  pub trace_id : Option String
  pub timestamp : String
  pub source_type : Option SourceType
  pub channel_type : Option ChannelType
  pub project_ref : Option String
  pub resolved_project_id : String
  pub route_source : RouteSource
  pub workflow : Option WorkflowFamily
  pub target_kind : Option TargetKind
  pub target_id : Option String
  pub route_evidence : List String
  pub main_session_binding_id : Option String
  pub project_session_runtime_kind : Option String
  pub project_session_delivery_status : Option DeliveryStatus
  pub project_session_runtime_target_id : Option String
  pub fallback_used : Bool
  pub escalation_reason : Option String
  pub safe_fail : Bool
  pub safe_fail_reason : Option String
  pub reason : String

pub record PendingSaveMode : Type 0 where
  pub created_at : String
  pub project_id : String
  pub debug_dry_run : Option Bool

-- `host_targets` are values that the modelled code hands on unread.
pub record PendingSaveDraft : Type 0 where
  pub created_at : String
  pub project_id : String
  pub updated_files : List String
  pub host_targets : Option (List Value)
  pub resume_draft : String
  pub status_draft : Option String
  pub summary_for_chat : String
  pub source_notes : Option (List String)

pub record WorkSurfaceOrigin : Type 0 where
  pub source_system : String
  pub surface_kind : Option String
  pub adapter : Option String
  pub identity : Option String
  pub config_path : Option String
  pub base_ref : Option String
  pub table_id : Option String
  pub table_name : Option String
  pub record_id : Option String

pub record ExecutionWorkItem : Type 0 where
  pub kind : String
  pub record_id : String
  pub status : Option String
  pub headline : Option String
  pub project : Option String
  pub priority : Option String
  pub assignee : Option String
  pub acceptance_mode : Option String
  pub completion_notify_mode : Option String
  pub next_action : Option String
  pub business_fields : List (String × Option String)
  pub work_surface_origin : Option WorkSurfaceOrigin

pub record PendingSemanticExecution : Type 0 where
  pub created_at : String
  pub project_id : String
  pub action_name : String
  pub workflow : Option WorkflowFamily
  pub trace_id : Option String
  pub task_record_id : Option String
  pub bug_record_id : Option String
  pub adapter_facts : Option Fields
  pub execution_contexts : Option (List ExecutionWorkItem)

pub record CurrentProjectBinding : Type 0 where
  pub project_id : String
  pub selected_at : String
  pub selected_via : SelectedVia
  pub current_workflow : Option WorkflowFamily
  pub updated_at : String

pub record SessionProjectState : Type 0 where
  pub current_project_id : Option String
  pub selected_at : String
  pub selected_via : SelectedVia
  pub current_workflow : Option WorkflowFamily
  pub updated_at : String
  pub expires_at : String
  pub last_route_trace : Option RouteTrace
  pub pending_save_mode : Option PendingSaveMode
  pub pending_save_draft : Option PendingSaveDraft
  pub pending_semantic_execution : Option PendingSemanticExecution

pub record SessionProjectStatePatch : Type 0 where
  pub current_project_id : Option (Option String)
  pub selected_at : Option String
  pub selected_via : Option SelectedVia
  pub current_workflow : Option (Option WorkflowFamily)
  pub updated_at : Option String
  pub expires_at : Option String
  pub last_route_trace : Option (Option RouteTrace)
  pub pending_save_mode : Option (Option PendingSaveMode)
  pub pending_save_draft : Option (Option PendingSaveDraft)
  pub pending_semantic_execution : Option (Option PendingSemanticExecution)
