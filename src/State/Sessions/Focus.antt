-- ===== src/State/Sessions/Focus.antt =====
-- The focus of a session from the command that selects a project to the decision on a message.
use assistant_context_router.Prelude.{
  ℕ, ◌+◌, ◌≡◌, refl, ◌∙◌, true, false, none, some, String, Bool-cases, inl, inr, if◌then◌else◌, leb,
  and_then, or_else,
}
use assistant_context_router.Text.{is_empty}
use assistant_context_router.Host.{Host, ReadsDates}
use assistant_context_router.Types.Routing.{TargetKind, SourceType}
use assistant_context_router.Types.Session.{SessionProjectState, CurrentProjectBinding}
use assistant_context_router.State.CurrentProject.{
  BindingPatchInput, create_current_project_binding_patch, read_current_project_binding,
}
use assistant_context_router.State.Sessions.{SessionFile, prune, get, set, next_state}
use assistant_context_router.State.Sessions.Expiry.{get-set}
use assistant_context_router.Routing.Decision.{
  RouteInput, decide_route, resolved_project, bound_project, is_structured,
}
use assistant_context_router.Routing.Decision.Safety.{decide_route-project}

focus-project :
    (message : RouteInput) (state : SessionProjectState) (b : CurrentProjectBinding)
    → message.envelope.resolved_project_id ≡ none
    → message.session_state ≡ some state
    → read_current_project_binding (some state) ≡ some b
    → resolved_project message ≡ b.project_id
unfolding resolved_project bound_project
focus-project message state b unnamed stored focus = rw (unnamed, stored, focus) refl

module _ (host : Host) (ttl_ms current : ℕ) (key : String) (file : SessionFile)
    (choice : BindingPatchInput) where
  -- The answer of the `set` that selects a project.
  abbrev pub selected : SessionProjectState
  selected = (set host ttl_ms current key (create_current_project_binding_patch choice) file).1

  -- Selecting a project, with an id that is not empty, makes it the focus of the session, whatever
  -- the session held before; what was pending of a save is dropped or kept as the choice says, and a
  -- pending execution is kept.
  pub select-focus :
      is_empty choice.project_id ≡ false
      → (read_current_project_binding (some selected)
          ≡ some (record {
            project_id = choice.project_id;
            selected_at = choice.selected_at;
            selected_via = choice.selected_via;
            current_workflow = choice.current_workflow;
            updated_at = or_else choice.updated_at choice.selected_at;
          }))
        × (selected.pending_save_mode ≡ (
            if choice.clear_pending_save
            then none
            else and_then (prune host current file key) (λ s. s.pending_save_mode)))
        × (selected.pending_save_draft ≡ (
            if choice.clear_pending_save
            then none
            else and_then (prune host current file key) (λ s. s.pending_save_draft)))
        × (selected.pending_semantic_execution
            ≡ and_then (prune host current file key) (λ s. s.pending_semantic_execution))
  unfolding set next_state create_current_project_binding_patch read_current_project_binding
  select-focus named = elim (Bool-cases choice.clear_pending_save) [
    | inl c ↦ rw (named, c) (refl, refl, refl, refl)
    | inr c ↦ rw (named, c) (refl, refl, refl, refl)
  ]

  -- The message of a person that names no project, in a session whose project was selected, with an
  -- id that is not empty, no longer ago than the lifetime, stays in the main session and is decided
  -- for the selected project.
  pub select-then-decide :
      (dates : ReadsDates host) (later : ℕ) (message : RouteInput)
      → is_empty choice.project_id ≡ false
      → leb later (current + ttl_ms) ≡ true
      → message.envelope.source_type ≡ SourceType.human
      → message.envelope.resolved_project_id ≡ none
      → message.session_state
        ≡ (get host later key
            (set host ttl_ms current key (create_current_project_binding_patch choice) file).0).1
      → ((decide_route message).target_kind ≡ TargetKind.main_session)
        × ((decide_route message).target_id ≡ message.session_key)
        × ((decide_route message).resolved_project_id ≡ choice.project_id)
  unfolding create_current_project_binding_patch decide_route is_structured
  select-then-decide dates later message named alive human unnamed state =
      (rw human refl, rw human refl, decide_route-project message ∙ project)
    where
      stored : message.session_state ≡ some selected
      stored =
          state
          ∙ get-set host dates ttl_ms current later key file
              (create_current_project_binding_patch choice) refl
          ∙ rw alive refl

      project : resolved_project message ≡ choice.project_id
      project = focus-project message selected _ unnamed stored (select-focus named).0
