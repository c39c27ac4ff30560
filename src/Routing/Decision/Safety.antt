-- ===== src/Routing/Decision/Safety.antt =====
-- What `decideRoute` guarantees about the project of a message.
use assistant_context_router.Prelude.{
  ◌≡◌, refl, Bool, true, false, ◌&&◌, Option, none, some, String, ◌==◌, arith, eq_iff, sym, ◌∙◌,
  Bool-cases, inl, inr,
}
use assistant_context_router.Types.Routing.{
  TargetKind, PreferredTarget, WorkflowFamily, RouteDecision,
}
use assistant_context_router.Types.Session.{SessionProjectState}
use assistant_context_router.Routing.Decision.{
  RouteInput, decide_route, is_structured, requires_resolved_project, resolved_project,
  has_service_action, preferred_target, bound_project, route_workflow, by_preference, structured,
  safe_fail,
}

named_project :
    (input : RouteInput) (p : String)
    → input.envelope.resolved_project_id ≡ some p
    → resolved_project input ≡ p
unfolding resolved_project
named_project input p e = ground arith

no_project :
    (input : RouteInput)
    → input.envelope.resolved_project_id ≡ none
    → bound_project input ≡ none
    → resolved_project input ≡ "unresolved"
unfolding resolved_project
no_project input e b = simp (e, b)

-- The input with another session state.
abbrev pub with_session : RouteInput → Option SessionProjectState → RouteInput
with_session input other = record input { session_state = other }

abbrev pub with_workflow : RouteDecision → Option WorkflowFamily → RouteDecision
with_workflow d w = record d { workflow = w }

by_preference-with_session :
    (input : RouteInput) (other : Option SessionProjectState) (pref : Option PreferredTarget)
    (has : Bool)
    → resolved_project (with_session input other) ≡ resolved_project input
    → by_preference (with_session input other) pref has
      ≡ with_workflow (by_preference input pref has) (route_workflow (with_session input other))
unfolding decide_route structured safe_fail
by_preference-with_session input other (some PreferredTarget.project_session) has e = rw e
by_preference-with_session input other (some PreferredTarget.service) true e = rw e
by_preference-with_session input other (some PreferredTarget.service) false e = rw e
by_preference-with_session input other none true e = rw e
by_preference-with_session input other none false e = rw e

by_preference-project :
    (input : RouteInput) (pref : Option PreferredTarget) (has : Bool)
    → (by_preference input pref has).resolved_project_id ≡ resolved_project input
unfolding decide_route structured safe_fail
by_preference-project input (some PreferredTarget.project_session) has = refl
by_preference-project input (some PreferredTarget.service) true = refl
by_preference-project input (some PreferredTarget.service) false = refl
by_preference-project input none true = refl
by_preference-project input none false = refl

-- Every branch decides for the project that was resolved.
pub decide_route-project :
    (input : RouteInput) → (decide_route input).resolved_project_id ≡ resolved_project input
unfolding decide_route structured safe_fail
decide_route-project input = elim (Bool-cases (is_structured input)) [
  | inr s ↦ rw s refl
  | inl s ↦
      (elim (Bool-cases
        (requires_resolved_project input && (resolved_project input == "unresolved"))) [
          | inl u ↦ rw (s, u) refl
          | inr u ↦
              rw (s, u)
                (by_preference-project input (preferred_target input) (has_service_action input))
        ])
]

module _ (input : RouteInput) where
  -- A structured message whose route asks for a project, and for which neither the envelope nor the
  -- session names one, is refused as `unresolved_project`: no target, no project, and the main session
  -- as fallback, whatever handlers and configuration there are.
  pub decide_route-unresolved :
      is_structured input ≡ true
      → requires_resolved_project input ≡ true
      → input.envelope.resolved_project_id ≡ none
      → bound_project input ≡ none
      → ((decide_route input).target_kind ≡ TargetKind.safe_fail)
        × ((decide_route input).target_id ≡ none)
        × ((decide_route input).escalation_reason ≡ some "unresolved_project")
        × ((decide_route input).resolved_project_id ≡ "unresolved")
        × ((decide_route input).fallback_to_main_session ≡ true)
  unfolding decide_route
  decide_route-unresolved s r e b =
      let u = no_project input e b in ground (arith, eq_iff (resolved_project input) "unresolved")

  -- Where the envelope of a structured message names a project, it wins over the focus of the session:
  -- the message is decided for that project, and with any other session state the decision is the
  -- same in everything but the workflow, which is the one of that input.
  pub decide_route-focus_irrelevant :
      (p : String) (other : Option SessionProjectState)
      → input.envelope.resolved_project_id ≡ some p
      → is_structured input ≡ true
      → ((decide_route input).resolved_project_id ≡ p)
        × (decide_route (with_session input other)
            ≡ with_workflow (decide_route input) (route_workflow (with_session input other)))
  unfolding decide_route is_structured has_service_action requires_resolved_project preferred_target
  decide_route-focus_irrelevant p other e s =
      let here = named_project input p e in
      let there = named_project (with_session input other) p e in
      let same =
        by_preference-with_session input other (preferred_target input) (has_service_action input)
          (there ∙ sym here) in
      let project =
        by_preference-project input (preferred_target input) (has_service_action input) in
      elim (Bool-cases (requires_resolved_project input && (p == "unresolved"))) [
        | inl u ↦ rw (s, here, there, u) (refl, refl)
        | inr r ↦ rw (s, here, there, r) (project ∙ here, same)
      ]
