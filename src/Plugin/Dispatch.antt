-- ===== src/Plugin/Dispatch.antt =====
-- adapters/openclaw/plugin/src/index.ts, the `before_dispatch` handler of a structured message: its
-- two decisions and the call of the service that the second one chooses. The project registry and
-- the project's configuration are read from files: `entry` is the id of the registry entry that was
-- found for the message, and the configurations are arguments.
pub mod Services
use assistant_context_router.Prelude.{
  String, Bool, true, false, ◌&&◌, ◌||◌, Option, none, some, List, [], ◌∷◌, ◌==◌, if◌then◌else◌,
  and_then, or_else, is_some,
}
use assistant_context_router.Text.{truthy}
use assistant_context_router.Types.Routing.{
  NormalizedEnvelope, RouteDecision, RouterConfig, PreferredTarget, InternalServiceRequest,
  ServiceResult, RuntimeBinding,
}
use assistant_context_router.Types.Session.{SessionProjectState}
use assistant_context_router.Routing.Decision.{RouteInput, decide_route}
use assistant_context_router.Routing.Config.{merge_router_configs, configured_action}
use assistant_context_router.Routing.Services.{
  Registry, Handler, BridgeAdapter, has_handler, execute_service, execute_bridge,
}

-- What the handler has at hand for a message.
pub record Dispatch : Type 0 where
  pub envelope : NormalizedEnvelope
  pub entry : Option String
  pub session_key : Option String
  pub session_state : Option SessionProjectState
  pub handlers : Registry Handler
  pub adapters : Registry BridgeAdapter
  pub router_config : RouterConfig
  pub project_router_config : RouterConfig

-- `routingEnvelope`: the registry's entry, or no project.
abbrev pub routing_envelope : Dispatch → NormalizedEnvelope
routing_envelope d = record (d.envelope) { resolved_project_id = d.entry }

-- `effectiveRouterConfig`
unfoldable pub effective_config : Dispatch → RouterConfig
effective_config d = merge_router_configs d.router_config d.project_router_config

-- `Object.keys(input.serviceHandlers ?? {})`
abbrev pub handler_names : Registry Handler → List String
handler_names [] = []
handler_names ((name, handler) ∷ rest) = name ∷ handler_names rest

-- The first decision, whose project the configuration is looked up for.
unfoldable pub first_decision : Dispatch → RouteDecision
first_decision d = decide_route (record {
  envelope = routing_envelope d;
  session_key = d.session_key;
  session_state = d.session_state;
  available_service_actions = some (handler_names d.handlers);
  action_config = none;
})

-- `projectIdForConfig`
unfoldable pub project_id_for_config : Dispatch → Option String
unfolding first_decision
project_id_for_config d =
    let project = (first_decision d).resolved_project_id in
    if project == "unresolved" then d.entry else some project

abbrev pub is_service_target : Option PreferredTarget → Bool
is_service_target none = false
is_service_target (some PreferredTarget.service) = true
is_service_target (some PreferredTarget.project_session) = false

-- Whether the action is available as a service: it has a handler, or it is configured for the bridge.
unfoldable pub is_available : Dispatch → String → Bool
unfolding effective_config project_id_for_config
is_available d action_name =
    has_handler d.handlers action_name (project_id_for_config d)
    || (is_some (effective_config d).service_binding
        && is_service_target
            (and_then (configured_action (effective_config d) action_name) (λ c. c.target_kind)))

-- The input of the second decision.
unfoldable pub final_input : Dispatch → RouteInput
unfolding is_available effective_config
final_input d = record {
  envelope = routing_envelope d;
  session_key = d.session_key;
  session_state = d.session_state;
  available_service_actions = some (
      if truthy d.envelope.action_name && is_available d (or_else d.envelope.action_name "")
      then or_else d.envelope.action_name "" ∷ []
      else []);
  action_config =
      if truthy d.envelope.action_name
      then configured_action (effective_config d) (or_else d.envelope.action_name "")
      else none;
}

unfoldable pub final_decision : Dispatch → RouteDecision
unfolding final_input
final_decision d = decide_route (final_input d)

-- `serviceRequest`
unfoldable pub service_request : Dispatch → String → InternalServiceRequest
unfolding final_decision
service_request d action_name =
    let project = (final_decision d).resolved_project_id in
    record {
      action_name = action_name;
      resolved_project_id = if project == "unresolved" then "" else project;
      workflow = (final_decision d).workflow;
      parameters = d.envelope.parameters;
      trace_id = d.envelope.trace_id;
      reply_target = d.envelope.reply_target;
    }

-- The handler if there is one, then the bridge if it is configured, and else the service registry.
by_binding :
    Registry Handler
    → Registry BridgeAdapter
    → String
    → InternalServiceRequest
    → Bool
    → Option RuntimeBinding
    → Option ServiceResult
by_binding handlers adapters action_name request true binding =
    execute_service handlers action_name request
by_binding handlers adapters action_name request false (some binding) =
    execute_bridge adapters binding request
by_binding handlers adapters action_name request false none =
    execute_service handlers action_name request

-- `serviceResult`, by `hasDirectHandler`; `none` is a handler or an adapter that throws.
unfoldable pub call_service : Dispatch → String → Option ServiceResult
unfolding by_binding project_id_for_config effective_config service_request
call_service d action_name =
    by_binding d.handlers d.adapters action_name (service_request d action_name)
      (has_handler d.handlers action_name (project_id_for_config d))
      (effective_config d).service_binding
