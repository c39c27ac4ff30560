-- ===== src/Plugin/Dispatch/Services.antt =====
-- The service that a message is decided for is there.
use assistant_context_router.Prelude.{
  ◌≡◌, ◌≢◌, refl, ap, sym, ◌∙◌, true, false, ◌&&◌, ◌||◌, ◌⊎◌, inl, inr, String, Bool, Bool-cases,
  Option-cases, Option, none, some, is_some, and_then, or_else, ◌==◌, if◌then◌else◌, arith, [], ◌∷◌,
}
use assistant_context_router.Text.{truthy}
use assistant_context_router.Types.Routing.{TargetKind, RuntimeBinding, InternalServiceRequest}
use assistant_context_router.Routing.Decision.{
  resolved_project, bound_project, has_service_action, set_has,
}
use assistant_context_router.Routing.Decision.Safety.{decide_route-project}
use assistant_context_router.Routing.Decision.Table.{decide_route-service_iff}
use assistant_context_router.Routing.Services.{
  Handler, Registry, has_handler, handler_for, execute_service, execute_bridge, run_handler,
  normalize_service_result,
}
use assistant_context_router.Routing.Services.Registry.{has_handler-handler_for}
use assistant_context_router.Plugin.Dispatch.{
  Dispatch, effective_config, first_decision, project_id_for_config, is_available, final_input,
  final_decision, service_request, call_service, by_binding,
}

common_handler :
    (handlers : Registry Handler) (action_name : String)
    → has_handler handlers action_name none ≡ is_some (handler_for handlers action_name "")
unfolding has_handler handler_for
common_handler handlers action_name = refl

-- For a message without a registry entry the common handlers are asked for and then run; for any
-- other, those of its project.
same_handlers :
    (handlers : Registry Handler) (action_name project : String) (entry : Option String)
    → (or_else entry "" == "unresolved") ≡ false
    → (or_else entry project ≡ project)
    → has_handler handlers action_name (if project == "unresolved" then entry else some project)
      ≡ is_some (handler_for handlers action_name (if project == "unresolved" then "" else project))
same_handlers handlers action_name project none named agrees =
    elim (Bool-cases (project == "unresolved")) [
      | inl u ↦ rw u (common_handler handlers action_name)
      | inr k ↦ rw k (has_handler-handler_for handlers action_name project)
    ]
same_handlers handlers action_name project (some e) named agrees =
    rw (← agrees, named) (has_handler-handler_for handlers action_name e)

none_offered :
    (action : Option String) (is_offered : Bool)
    → is_offered ≡ false
    → (truthy action
        && set_has
            (some (if truthy action && is_offered then or_else action "" ∷ [] else []))
            (or_else action ""))
      ≡ false
none_offered action is_offered f = elim (Bool-cases (truthy action)) [
  | inl t ↦ rw (t, f) refl
  | inr n ↦ rw n refl
]

second_of : (x y z : Bool) → (x || (y && z)) ≡ true → x ≡ false → y ≡ true
second_of x y z h f = ground arith

true-ne-false : true ≢ false
true-ne-false e = ground arith

module _ (d : Dispatch) where
  abbrev project : String
  project = resolved_project (final_input d)

  first-project : (first_decision d).resolved_project_id ≡ project
  unfolding first_decision final_input resolved_project bound_project
  first-project = decide_route-project _

  final-project : (final_decision d).resolved_project_id ≡ project
  unfolding final_decision
  final-project = decide_route-project (final_input d)

  -- The project is the registry entry's, if there is one.
  entry-project : or_else d.entry project ≡ project
  unfolding final_input resolved_project
  entry-project = elim (Option-cases d.entry) [ inl n ↦ rw n refl | inr (e, h) ↦ rw h refl ]

  config-project :
      project_id_for_config d ≡ (if project == "unresolved" then d.entry else some project)
  unfolding project_id_for_config
  config-project = ap (λ p. if p == "unresolved" then d.entry else some p) first-project

  module _ (action_name : String) where
    abbrev request : InternalServiceRequest
    request = service_request d action_name

    request-project :
        request.resolved_project_id ≡ (if project == "unresolved" then "" else project)
    unfolding service_request
    request-project = ap (λ p. if p == "unresolved" then "" else p) final-project

    -- The plugin asks for a handler of the project that the request is then made for.
    asked-for :
        (or_else d.entry "" == "unresolved") ≡ false
        → has_handler d.handlers action_name (project_id_for_config d)
          ≡ is_some (handler_for d.handlers action_name request.resolved_project_id)
    asked-for named =
        ap (has_handler d.handlers action_name) config-project
        ∙ same_handlers d.handlers action_name project d.entry named entry-project
        ∙ ap (λ p. is_some (handler_for d.handlers action_name p)) (sym request-project)

    no_action :
        d.envelope.action_name ≡ some action_name
        → is_available d action_name ≡ false
        → has_service_action (final_input d) ≡ false
    unfolding has_service_action final_input
    no_action named f =
        none_offered d.envelope.action_name (is_available d (or_else d.envelope.action_name ""))
          (ap (λ a. is_available d (or_else a "")) named ∙ f)

    available :
        d.envelope.action_name ≡ some action_name
        → (final_decision d).target_kind ≡ TargetKind.service
        → is_available d action_name ≡ true
    unfolding final_decision
    available named served = elim (Bool-cases (is_available d action_name)) [
      | inl t ↦ t
      | inr f ↦ absurd (
          true-ne-false
            (sym ((decide_route-service_iff (final_input d)).0 served).2 ∙ no_action named f))
    ]

    -- An available action without a handler has a bridge.
    bridged :
        has_handler d.handlers action_name (project_id_for_config d) ≡ false
        → is_available d action_name ≡ true
        → is_some (effective_config d).service_binding ≡ true
    unfolding is_available
    bridged unhandled h = second_of _ _ _ h unhandled

    call-bridge :
        (binding : RuntimeBinding)
        → has_handler d.handlers action_name (project_id_for_config d) ≡ false
        → (effective_config d).service_binding ≡ some binding
        → call_service d action_name ≡ execute_bridge d.adapters binding request
    unfolding call_service
    call-bridge binding unhandled e =
        ap
          (λ h.
            by_binding d.handlers d.adapters action_name request h
              (effective_config d).service_binding)
          unhandled
        ∙ ap (by_binding d.handlers d.adapters action_name request false) e

    call-handler :
        (handler : Handler)
        → has_handler d.handlers action_name (project_id_for_config d) ≡ true
        → handler_for d.handlers action_name request.resolved_project_id ≡ some handler
        → call_service d action_name
          ≡ and_then (handler request) (λ r. some (normalize_service_result r))
    unfolding call_service execute_service run_handler
    call-handler handler handled e =
        ap
          (λ h.
            by_binding d.handlers d.adapters action_name request h
              (effective_config d).service_binding)
          handled
        ∙ ap (λ found. run_handler found action_name request) e

    -- A message that is decided for a service, and whose registry entry is not called "unresolved",
    -- is answered by a handler that is registered for its action, or else by the configured bridge:
    -- it never meets the answer that no service is registered.
    pub call_service-found :
        d.envelope.action_name ≡ some action_name
        → (final_decision d).target_kind ≡ TargetKind.service
        → (or_else d.entry "" == "unresolved") ≡ false
        → ((handler : Handler) × (handler_for d.handlers action_name request.resolved_project_id
              ≡ some handler)
            × (call_service d action_name
                ≡ and_then (handler request) (λ r. some (normalize_service_result r))))
          ⊎ ((binding : RuntimeBinding) × ((effective_config d).service_binding ≡ some binding)
              × (call_service d action_name ≡ execute_bridge d.adapters binding request))
    call_service-found named served entry =
        elim (Option-cases (handler_for d.handlers action_name request.resolved_project_id)) [
          | inr (handler, e) ↦
              inl (handler, e, call-handler handler (asked-for entry ∙ ap is_some e) e)
          | inl n ↦
              let unhandled = asked-for entry ∙ ap is_some n in
              (elim (Option-cases (effective_config d).service_binding) [
                | inr (binding, b) ↦ inr (binding, b, call-bridge binding unhandled b)
                | inl b ↦ absurd (
                    true-ne-false (sym (bridged unhandled (available named served)) ∙ ap is_some b))
              ])
        ]
