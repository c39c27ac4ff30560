-- ===== src/State/CurrentProject.antt =====
-- state/current-project-binding.ts: the project that a session is focused on.
use assistant_context_router.Prelude.{
  String, Bool, false, Option, none, some, ◌==◌, if◌then◌else◌, and_then, or_else,
}
use assistant_context_router.Text.{is_empty}
use assistant_context_router.Types.Routing.{SelectedVia, WorkflowFamily}
use assistant_context_router.Types.Session.{
  CurrentProjectBinding, SessionProjectState, SessionProjectStatePatch, RouteTrace,
}

-- The state's own fields, around the project id that it names.
abbrev binding_of : SessionProjectState → String → CurrentProjectBinding
binding_of state id = record {
  project_id = id;
  selected_at = state.selected_at;
  selected_via = state.selected_via;
  current_workflow = state.current_workflow;
  updated_at = state.updated_at;
}

-- A project id that is null or empty is no binding.
unfoldable pub read_current_project_binding :
    Option SessionProjectState → Option CurrentProjectBinding
read_current_project_binding session_state = and_then session_state λ state.
    and_then state.current_project_id λ id. if is_empty id then none else some (binding_of state id)

unfoldable pub binding_matches_project : Option SessionProjectState → String → Bool
unfolding read_current_project_binding
binding_matches_project session_state project_id =
    elim (read_current_project_binding session_state) [
      | none ↦ false
      | some b ↦ b.project_id == project_id
    ]

pub record BindingPatchInput : Type 0 where
  pub project_id : String
  pub selected_at : String
  pub selected_via : SelectedVia
  pub current_workflow : Option WorkflowFamily
  pub updated_at : Option String
  pub last_route_trace : Option RouteTrace
  pub clear_pending_save : Bool

unfoldable pub create_current_project_binding_patch : BindingPatchInput → SessionProjectStatePatch
create_current_project_binding_patch input = record {
  current_project_id = some (some input.project_id);
  selected_at = some input.selected_at;
  selected_via = some input.selected_via;
  current_workflow = some input.current_workflow;
  updated_at = some (or_else input.updated_at input.selected_at);
  expires_at = none;
  last_route_trace = some input.last_route_trace;
  pending_save_mode = if input.clear_pending_save then some none else none;
  pending_save_draft = if input.clear_pending_save then some none else none;
  pending_semantic_execution = none;
}
