-- ===== src/Routing/Services.antt =====
-- routing/service-result.ts, routing/services.ts and routing/service-bridge.ts: the registries of
-- service handlers and bridge adapters. Handlers and adapters are the host's: parameters that answer
-- `none` when they throw.
pub mod Registry
use assistant_context_router.Prelude.{
  ℕ, String, Bool, true, false, not, ◌&&◌, ◌||◌, Option, none, some, List, [], ◌∷◌, ◌==◌, ◌<|>◌,
  if◌then◌else◌, and_then, is_some,
}
use assistant_context_router.Text.{is_empty, truthy, ◌⧺◌}
use assistant_context_router.Value.{Fields}
use assistant_context_router.Value
use assistant_context_router.Types.Routing.{
  ServiceResult, ServiceStatus, ServiceResultKind, InternalServiceRequest, RuntimeBinding,
}

unfoldable pub infer_result_kind : ServiceStatus → ServiceResultKind
infer_result_kind ServiceStatus.needs_escalation = ServiceResultKind.needs_escalation
infer_result_kind ServiceStatus.error = ServiceResultKind.rejected
infer_result_kind ServiceStatus.ok = ServiceResultKind.accepted

unfoldable pub normalize_service_result : ServiceResult → ServiceResult
unfolding infer_result_kind
normalize_service_result result = record result {
  result_kind = result.result_kind <|> some (infer_result_kind result.status);
  summary = result.summary <|> result.reply_payload;
}

abbrev pub Handler : Type 0
Handler = InternalServiceRequest → Option ServiceResult

abbrev pub BridgeAdapter : Type 0
BridgeAdapter = RuntimeBinding → InternalServiceRequest → Option ServiceResult

-- `new Map(Object.entries(…))`
abbrev pub Registry : Type 0 → Type 0
Registry A = List (String × A)

-- `registry.get(key)`
unfoldable pub registered : {A : Type 0} → String → Registry A → Option A
registered key [] = none
registered key ((k, a) ∷ rest) = let more = registered key rest in if k == key then some a else more

unfoldable pub project_scoped_key : String → String → String
project_scoped_key project_id action_name = project_id ⧺ ":" ⧺ action_name

-- `has` of the service registry.
unfoldable pub has_handler : Registry Handler → String → Option String → Bool
unfolding registered project_scoped_key
has_handler registry action_name none = is_some (registered action_name registry)
has_handler registry action_name (some project_id) =
    (not (is_empty project_id)
      && is_some (registered (project_scoped_key project_id action_name) registry))
    || is_some (registered action_name registry)

-- The handler that `execute` finds: the project's own before the common one.
unfoldable pub handler_for : Registry Handler → String → String → Option Handler
unfolding registered project_scoped_key
handler_for registry action_name project_id =
    (if is_empty project_id
      then none
      else registered (project_scoped_key project_id action_name) registry)
    <|> registered action_name registry

unfoldable pub missing_handler_result : String → String → ServiceResult
missing_handler_result action_name project_id = record {
  status = ServiceStatus.needs_escalation;
  result_kind = none;
  work_surface_action = none;
  summary = none;
  reply_payload = none;
  needs_escalation = true;
  escalation_reason = some ("No internal service registered for action " ⧺ action_name);
  run_id = none;
  queue_ref = none;
  artifact_ref = none;
  trace_patch = some (
      Value.field "service_handler" (Value.str "missing") (
        Value.field "action_name" (Value.str action_name)
          (Value.field "resolved_project_id" (Value.str project_id) Value.end)));
}

-- A handler's answer, or the refusal if there is none.
unfoldable pub run_handler : Option Handler → String → InternalServiceRequest → Option ServiceResult
unfolding missing_handler_result normalize_service_result
run_handler none action_name request =
    some (normalize_service_result (missing_handler_result action_name request.resolved_project_id))
run_handler (some handler) action_name request =
    and_then (handler request) (λ result. some (normalize_service_result result))

-- `execute` of the service registry.
unfoldable pub execute_service :
    Registry Handler → String → InternalServiceRequest → Option ServiceResult
unfolding handler_for run_handler
execute_service registry action_name request =
    run_handler (handler_for registry action_name request.resolved_project_id) action_name request

unfoldable pub missing_adapter_result : RuntimeBinding → ServiceResult
missing_adapter_result binding = record {
  status = ServiceStatus.needs_escalation;
  result_kind = some ServiceResultKind.needs_escalation;
  work_surface_action = none;
  summary = some ("No service bridge adapter registered for runtime " ⧺ binding.runtime_kind);
  reply_payload = none;
  needs_escalation = true;
  escalation_reason =
      some ("No service bridge adapter registered for runtime " ⧺ binding.runtime_kind);
  run_id = none;
  queue_ref = none;
  artifact_ref = none;
  trace_patch = some (
      Value.field "service_bridge_adapter" (Value.str "missing") (
        Value.field "runtime_kind" (Value.str binding.runtime_kind)
          (Value.field "target_ref" (Value.str binding.target_ref) Value.end)));
}

unfoldable pub run_adapter :
    Option BridgeAdapter → RuntimeBinding → InternalServiceRequest → Option ServiceResult
unfolding missing_adapter_result normalize_service_result
run_adapter none binding request = some (normalize_service_result (missing_adapter_result binding))
run_adapter (some adapter) binding request =
    and_then (adapter binding request) (λ result. some (normalize_service_result result))

-- `execute` of the bridge registry.
unfoldable pub execute_bridge :
    Registry BridgeAdapter → RuntimeBinding → InternalServiceRequest → Option ServiceResult
unfolding run_adapter registered
execute_bridge registry binding request =
    run_adapter (registered binding.runtime_kind registry) binding request
