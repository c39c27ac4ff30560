-- ===== src/Tests/Services.antt =====
-- Tests of the service registries, the merged configuration and the dispatch of a service.
use assistant_context_router.Prelude.{◌≡◌, ◌⊎◌, refl, none, some, [], ◌∷◌, and_then, ◌<|>◌}
use assistant_context_router.Types.Routing.{TargetKind, RuntimeBinding, RouterConfig}
use assistant_context_router.Routing.Decision.{
  decide_route, is_structured, requires_resolved_project, resolved_project, preferred_target,
  has_service_action,
}
use assistant_context_router.Routing.Config.{configured_action, merge_router_configs}
use assistant_context_router.Routing.Config.Merge.{configured_action-merge_router_configs}
use assistant_context_router.Routing.Services.{
  Handler, Registry, BridgeAdapter, has_handler, handler_for, execute_bridge,
  normalize_service_result,
}
use assistant_context_router.Plugin.Dispatch.{
  Dispatch, call_service, service_request, final_decision, effective_config,
}
use assistant_context_router.Plugin.Dispatch.Services.{call_service-found}
use assistant_context_router.Tests.Samples.{lost_envelope, sample_result, lane_config}

-- A handler that one project has for the action `dispatch`.
abbrev handlers : Registry Handler
handlers = ("acr:dispatch", λ request. some sample_result) ∷ []

abbrev no_adapters : Registry BridgeAdapter
no_adapters = []

abbrev bridge : RuntimeBinding
bridge = record { runtime_kind = "agent"; target_ref = "main"; metadata = none }

abbrev empty_config : RouterConfig
empty_config = record {
  actions = none;
  service_binding = none;
  project_session_binding = none;
  task_bug_policy = none;
}

abbrev lane_actions : RouterConfig
lane_actions = record empty_config { actions = some (("dispatch", lane_config) ∷ []) }

-- The message for the project `acr`, which has the handler.
abbrev handled : Dispatch
handled = record {
  envelope = lost_envelope;
  entry = some "acr";
  session_key = none;
  session_state = none;
  handlers = handlers;
  adapters = no_adapters;
  router_config = empty_config;
  project_router_config = empty_config;
}

handled_service : (final_decision handled).target_kind ≡ TargetKind.service
unfolding final_decision decide_route is_structured requires_resolved_project configured_action
    merge_router_configs resolved_project preferred_target has_service_action has_handler
handled_service = refl

configured_action-merge_router_configs_example :
    configured_action (merge_router_configs lane_actions empty_config) "dispatch"
    ≡ (configured_action empty_config "dispatch" <|> configured_action lane_actions "dispatch")
configured_action-merge_router_configs_example =
    configured_action-merge_router_configs lane_actions empty_config "dispatch"

call_service-found_example :
    ((handler : Handler) × (handler_for handlers "dispatch"
          (service_request handled "dispatch").resolved_project_id
        ≡ some handler)
      × (call_service handled "dispatch"
          ≡ and_then
              (handler (service_request handled "dispatch"))
              (λ r. some (normalize_service_result r))))
    ⊎ ((binding : RuntimeBinding) × ((effective_config handled).service_binding ≡ some binding)
        × (call_service handled "dispatch"
            ≡ execute_bridge no_adapters binding (service_request handled "dispatch")))
call_service-found_example = call_service-found handled "dispatch" refl handled_service refl
