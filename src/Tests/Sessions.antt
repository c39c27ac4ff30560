-- ===== src/Tests/Sessions.antt =====
-- Tests of the session store.
use assistant_context_router.Prelude.{◌≡◌, refl, true, none, some, if◌then◌else◌, leb, ◌+◌, arith}
use assistant_context_router.Types.Routing.{SourceType, SelectedVia, TargetKind, WorkflowFamily}
use assistant_context_router.State.CurrentProject.{
  BindingPatchInput, create_current_project_binding_patch,
}
use assistant_context_router.State.Sessions.{SessionFile, get, set, invalidate}
use assistant_context_router.State.Sessions.Expiry.{get-set}
use assistant_context_router.State.Sessions.Isolation.{Call, run, get-run}
use assistant_context_router.State.Sessions.Focus.{select-then-decide}
use assistant_context_router.Routing.Decision.{RouteInput, decide_route}
use assistant_context_router.Tests.Samples.{sample_host, sample_host-ReadsDates, lost_envelope}

-- A choice of the project `acr`.
abbrev choice : BindingPatchInput
choice = record {
  project_id = "acr";
  selected_at = "I";
  selected_via = SelectedVia.manual;
  current_workflow = some WorkflowFamily.dispatch;
  updated_at = none;
  last_route_trace = none;
  clear_pending_save = true;
}

-- The file after session `s` chose `acr` at time 1, with a lifetime of 10.
abbrev chosen : SessionFile
chosen = (set sample_host 10 1 "s" (create_current_project_binding_patch choice) none).0

abbrev invalidated : SessionFile
invalidated = (invalidate sample_host 10 2 "s" none chosen).0

-- What the lost automation message is decided by in session `s`, as a file has it at time 5.
abbrev in_session : SessionFile → RouteInput
in_session file = record {
  envelope = lost_envelope;
  session_key = some "s";
  session_state = (get sample_host 5 "s" file).1;
  available_service_actions = none;
  action_config = none;
}

get-set_example : (get sample_host 11 "s" chosen).1 ≡ (
    if leb 11 (1 + 10)
    then some (set sample_host 10 1 "s" (create_current_project_binding_patch choice) none).1
    else none)
unfolding create_current_project_binding_patch
get-set_example =
    get-set sample_host sample_host-ReadsDates 10 1 11 "s" none
      (create_current_project_binding_patch choice) refl

get-run_example :
    (get sample_host 5 "s" (run sample_host 2 (Call.clears "t") chosen)).1
    ≡ (get sample_host 5 "s" chosen).1
get-run_example = get-run sample_host 2 5 chosen "s" (Call.clears "t") (omega arith) refl

-- A person's message in session `s`, as a file has it at time 5.
abbrev human_in_session : SessionFile → RouteInput
human_in_session file = record (in_session file) {
  envelope = record lost_envelope { source_type = SourceType.human };
}

select-then-decide_example :
    ((decide_route (human_in_session chosen)).target_kind ≡ TargetKind.main_session)
    × ((decide_route (human_in_session chosen)).target_id ≡ some "s")
    × ((decide_route (human_in_session chosen)).resolved_project_id ≡ "acr")
select-then-decide_example =
    select-then-decide sample_host 10 1 "s" none choice sample_host-ReadsDates 5
      (human_in_session chosen) refl refl refl refl refl
