-- ===== src/Routing/Decision/Table.antt =====
-- Which target `decideRoute` chooses, read off the facts of the message and nothing else.
use assistant_context_router.Prelude.{
  ◌≡◌, ◌≢◌, ◌↔◌, ◌⊎◌, Bool, true, false, not, some, is_some, ◌==◌, arith,
}
use assistant_context_router.Types.Routing.{TargetKind, PreferredTarget}
use assistant_context_router.Routing.Decision.{
  RouteInput, decide_route, is_structured, requires_resolved_project, resolved_project,
  has_service_action, preferred_target,
}

abbrev pub is_service : TargetKind → Bool
is_service TargetKind.service = true
is_service TargetKind.main_session = false
is_service TargetKind.project_session = false
is_service TargetKind.safe_fail = false

abbrev pub is_safe_fail : TargetKind → Bool
is_safe_fail TargetKind.safe_fail = true
is_safe_fail TargetKind.main_session = false
is_safe_fail TargetKind.project_session = false
is_safe_fail TargetKind.service = false

abbrev pub is_main_session : TargetKind → Bool
is_main_session TargetKind.main_session = true
is_main_session TargetKind.safe_fail = false
is_main_session TargetKind.project_session = false
is_main_session TargetKind.service = false

module _ (input : RouteInput) where
  -- The project of the message is missing although its route asks for one.
  abbrev pub LacksProject : Type 0
  LacksProject =
      (requires_resolved_project input ≡ true) × ((resolved_project input == "unresolved") ≡ true)

  -- A message reaches a service exactly when it is structured, its project is resolved or not asked
  -- for, a handler is registered for its action, and its route does not ask for the project session.
  pub decide_route-service_iff : ((decide_route input).target_kind ≡ TargetKind.service) ↔ (
      (is_structured input ≡ true)
      × (¬ LacksProject)
      × (has_service_action input ≡ true)
      × (preferred_target input ≢ some PreferredTarget.project_session))
  unfolding decide_route
  decide_route-service_iff = ground arith

  -- A message is refused exactly when it is structured and either lacks the project that its route
  -- asks for, or is configured for a service while no handler is registered.
  pub decide_route-safe_fail_iff : ((decide_route input).target_kind ≡ TargetKind.safe_fail) ↔ (
      (is_structured input ≡ true)
      × (LacksProject
          ⊎ ((preferred_target input ≡ some PreferredTarget.service)
              × (has_service_action input ≡ false))))
  unfolding decide_route
  decide_route-safe_fail_iff = ground arith

  -- On every branch: an escalation reason and a safe-fail reason are given exactly on a refusal, the
  -- main session is the fallback exactly for structured messages, and exactly the others go to it.
  pub decide_route-reasons :
      (is_some (decide_route input).escalation_reason
        ≡ is_safe_fail (decide_route input).target_kind)
      × (is_some (decide_route input).safe_fail_reason
          ≡ is_safe_fail (decide_route input).target_kind)
      × ((decide_route input).fallback_to_main_session ≡ is_structured input)
      × (is_main_session (decide_route input).target_kind ≡ not (is_structured input))
  unfolding decide_route
  decide_route-reasons = (ground arith, ground arith, ground arith, ground arith)
