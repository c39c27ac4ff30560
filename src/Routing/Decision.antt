-- ===== src/Routing/Decision.antt =====
-- routing/decision.ts: `decideRoute`, with its branches in the order of the source.
pub mod Table
pub mod Safety
use assistant_context_router.Prelude.{
  String, Bool, true, false, not, ◌&&◌, ◌||◌, Option, none, some, List, [], ◌∷◌, ◌==◌, any,
  if◌then◌else◌, ◌<|>◌, or_else, and_then, is_some,
}
use assistant_context_router.Text.{truthy, ◌⧺◌}
use assistant_context_router.Types.Routing.{
  NormalizedEnvelope, RouteDecision, ActionRouteConfig, PreferredTarget, SourceType, TargetKind,
  RouteSource, WorkflowFamily,
}
use assistant_context_router.Types.Session.{SessionProjectState, CurrentProjectBinding}
use assistant_context_router.State.CurrentProject.{read_current_project_binding}

pub record RouteInput : Type 0 where
  pub envelope : NormalizedEnvelope
  pub session_key : Option String
  pub session_state : Option SessionProjectState
  pub available_service_actions : Option (List String)
  pub action_config : Option ActionRouteConfig

unfoldable pub normalize_workflow :
    Option WorkflowFamily → Option WorkflowFamily → Option WorkflowFamily
normalize_workflow envelope_workflow session_workflow = envelope_workflow <|> session_workflow

abbrev pub binding : RouteInput → Option CurrentProjectBinding
binding input = read_current_project_binding input.session_state

unfoldable pub bound_project : RouteInput → Option String
bound_project input = and_then (binding input) (λ b. some b.project_id)

-- `resolvedProjectId`
unfoldable pub resolved_project : RouteInput → String
resolved_project input =
    or_else (input.envelope.resolved_project_id <|> bound_project input) "unresolved"

-- `workflow`
unfoldable pub route_workflow : RouteInput → Option WorkflowFamily
unfolding normalize_workflow
route_workflow input =
    and_then input.action_config (λ c. c.workflow)
    <|> normalize_workflow input.envelope.workflow
        (and_then (binding input) (λ b. b.current_workflow))

-- `set.has(key)`, for a set given by its members.
abbrev pub set_has : Option (List String) → String → Bool
set_has none key = false
set_has (some keys) key = any (λ k. k == key) keys

-- `hasServiceAction`
unfoldable pub has_service_action : RouteInput → Bool
has_service_action input =
    truthy input.envelope.action_name
    && set_has input.available_service_actions (or_else input.envelope.action_name "")

-- `preferredTarget`
unfoldable pub preferred_target : RouteInput → Option PreferredTarget
preferred_target input = and_then input.action_config (λ c. c.target_kind)

-- `requiresResolvedProject`
unfoldable pub requires_resolved_project : RouteInput → Bool
requires_resolved_project input =
    or_else (and_then input.action_config (λ c. c.requires_resolved_project)) true

abbrev structured_source : SourceType → Bool → Bool
structured_source SourceType.automation named = true
structured_source SourceType.agent named = named
structured_source SourceType.human named = false

-- `isStructuredWorkflowSource`
unfoldable pub is_structured : RouteInput → Bool
is_structured input =
    structured_source input.envelope.source_type (truthy input.envelope.action_name)

-- The fields that every structured decision shares.
structured : RouteInput → TargetKind → Option String → String → List String → RouteDecision
structured input kind target reason evidence = record {
  target_kind = kind;
  target_id = target;
  resolved_project_id = resolved_project input;
  project_ref = input.envelope.project_ref;
  route_source = RouteSource.automation;
  route_reason = reason;
  route_evidence = evidence;
  workflow = route_workflow input;
  fallback_to_main_session = true;
  escalation_reason = none;
  safe_fail_reason = none;
}

-- A decision that refuses the message, for one escalation reason.
safe_fail : RouteInput → String → String → List String → RouteDecision
unfolding structured
safe_fail input escalation reason evidence =
    record (structured input TargetKind.safe_fail none reason evidence) {
      route_source = RouteSource.unresolved;
      escalation_reason = some escalation;
      safe_fail_reason = some reason;
    }

unresolved_project : RouteInput → RouteDecision
unfolding safe_fail
unresolved_project input =
    safe_fail input "unresolved_project" "Automation message could not resolve project"
      ("automation message" ∷ "project unresolved" ∷ [])

missing_handler : RouteInput → RouteDecision
unfolding safe_fail
missing_handler input =
    safe_fail input "missing_service_handler"
      "Configured service route could not execute because no service handler is registered"
      ("automation message" ∷ "route config target=service" ∷ "service handler missing" ∷ [])

to_configured_session : RouteInput → RouteDecision
unfolding structured
to_configured_session input =
    structured input TargetKind.project_session
      (if resolved_project input == "unresolved"
        then none
        else some ("project:" ⧺ resolved_project input))
      "Automation message routed to project session event lane by config"
      ("automation message" ∷ "route config target=project_session" ∷ [])

to_service : RouteInput → RouteDecision
unfolding structured
to_service input =
    structured input TargetKind.service
      (some (resolved_project input ⧺ ":" ⧺ or_else input.envelope.action_name "null"))
      "Structured automation message routed to internal service"
      ("automation message" ∷ "resolved_project_id" ∷ "action_name" ∷ [])

to_project_session : RouteInput → RouteDecision
unfolding structured
to_project_session input =
    structured input TargetKind.project_session (some ("project:" ⧺ resolved_project input))
      (if truthy input.envelope.action_name
        then "Automation message routed to project session event lane"
        else "Automation message without executable action routed to project session event lane")
      ("automation message"
        ∷ "resolved_project_id"
        ∷ (if truthy input.envelope.action_name
            then "no registered service handler"
            else "action_name missing")
        ∷ [])

to_main_session : RouteInput → RouteDecision
to_main_session input = record {
  target_kind = TargetKind.main_session;
  target_id = input.session_key;
  resolved_project_id = resolved_project input;
  project_ref = input.envelope.project_ref;
  route_source =
      if truthy input.envelope.resolved_project_id || truthy input.envelope.project_ref
      then RouteSource.anchor
      else if truthy (bound_project input)
      then RouteSource.binding
      else RouteSource.route;
  route_reason =
      if truthy (bound_project input)
      then "Human-facing message stays in main session with current project focus"
      else "Human-facing message enters main session by default";
  route_evidence =
      if truthy (bound_project input)
      then "human-facing message" ∷ "main session" ∷ "current_project_binding" ∷ []
      else "human-facing message" ∷ "main session default" ∷ [];
  workflow = route_workflow input;
  fallback_to_main_session = false;
  escalation_reason = none;
  safe_fail_reason = none;
}

-- The branches on `preferredTarget` and `hasServiceAction`, in their order.
by_preference : RouteInput → Option PreferredTarget → Bool → RouteDecision
by_preference input (some PreferredTarget.project_session) has = to_configured_session input
by_preference input (some PreferredTarget.service) true = to_service input
by_preference input (some PreferredTarget.service) false = missing_handler input
by_preference input none true = to_service input
by_preference input none false = to_project_session input

unfoldable pub decide_route : RouteInput → RouteDecision
unfolding by_preference to_service missing_handler to_configured_session to_project_session
    to_main_session unresolved_project
decide_route input =
    if is_structured input
    then (if requires_resolved_project input && (resolved_project input == "unresolved")
        then unresolved_project input
        else by_preference input (preferred_target input) (has_service_action input))
    else to_main_session input
