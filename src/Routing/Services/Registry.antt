-- ===== src/Routing/Services/Registry.antt =====
-- The registry's two methods agree, and every answer is normalised.
use assistant_context_router.Prelude.{
  ◌≡◌, refl, ap, true, false, not, ◌&&◌, ◌||◌, String, Option, none, some, is_some, Bool, and_then,
  if◌then◌else◌, ◌<|>◌,
}
use assistant_context_router.Text.{is_empty}
use assistant_context_router.Types.Routing.{ServiceResult, InternalServiceRequest, RuntimeBinding}
use assistant_context_router.Routing.Services.{
  Handler, Registry, has_handler, handler_for, registered, normalize_service_result,
  execute_service, execute_bridge, BridgeAdapter, run_handler, run_adapter, project_scoped_key,
  missing_handler_result, missing_adapter_result,
}

scoped_first :
    {A : Type 0} (unnamed : Bool) (scoped common : Option A)
    → ((not unnamed && is_some scoped) || is_some common)
      ≡ is_some ((if unnamed then none else scoped) <|> common)
scoped_first true scoped common = refl
scoped_first false none common = refl
scoped_first false (some a) common = refl

-- `has` answers for a project exactly whether `execute` finds a handler for a request of the project.
pub has_handler-handler_for :
    (registry : Registry Handler) (action_name project_id : String)
    → has_handler registry action_name (some project_id)
      ≡ is_some (handler_for registry action_name project_id)
unfolding has_handler handler_for
has_handler-handler_for registry action_name project_id =
    scoped_first (is_empty project_id)
      (registered (project_scoped_key project_id action_name) registry)
      (registered action_name registry)

or_twice : {A : Type 0} (x y : Option A) → ((x <|> y) <|> y) ≡ (x <|> y)
or_twice none none = refl
or_twice none (some b) = refl
or_twice (some a) y = refl

-- Normalising a result twice is normalising it once.
normalize_service_result-normalize_service_result :
    (result : ServiceResult)
    → normalize_service_result (normalize_service_result result) ≡ normalize_service_result result
unfolding normalize_service_result
normalize_service_result-normalize_service_result result = simp or_twice

normalised_answer :
    (answer : Option ServiceResult)
    → and_then
        (and_then answer (λ r. some (normalize_service_result r)))
        (λ r. some (normalize_service_result r))
      ≡ and_then answer (λ r. some (normalize_service_result r))
normalised_answer none = refl
normalised_answer (some r) = ap some (normalize_service_result-normalize_service_result r)

handler-normalised :
    (found : Option Handler) (action_name : String) (request : InternalServiceRequest)
    → and_then (run_handler found action_name request) (λ r. some (normalize_service_result r))
      ≡ run_handler found action_name request
unfolding run_handler
handler-normalised none action_name request = ap some (
    normalize_service_result-normalize_service_result
      (missing_handler_result action_name request.resolved_project_id))
handler-normalised (some handler) action_name request = normalised_answer (handler request)

adapter-normalised :
    (found : Option BridgeAdapter) (binding : RuntimeBinding) (request : InternalServiceRequest)
    → and_then (run_adapter found binding request) (λ r. some (normalize_service_result r))
      ≡ run_adapter found binding request
unfolding run_adapter
adapter-normalised none binding request =
    ap some (normalize_service_result-normalize_service_result (missing_adapter_result binding))
adapter-normalised (some adapter) binding request = normalised_answer (adapter binding request)

-- Whatever handlers and adapters do, every answer of the two registries, refusals included, is
-- already normalised: normalising it again changes nothing.
pub execute-normalised :
    (handlers : Registry Handler) (adapters : Registry BridgeAdapter) (action_name : String)
    (binding : RuntimeBinding) (request : InternalServiceRequest)
    → (and_then
          (execute_service handlers action_name request)
          (λ r. some (normalize_service_result r))
        ≡ execute_service handlers action_name request)
      × (and_then (execute_bridge adapters binding request) (λ r. some (normalize_service_result r))
          ≡ execute_bridge adapters binding request)
unfolding execute_service execute_bridge
execute-normalised handlers adapters action_name binding request = (
  handler-normalised (handler_for handlers action_name request.resolved_project_id) action_name
      request,
  adapter-normalised (registered binding.runtime_kind adapters) binding request,
)
