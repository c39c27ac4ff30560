-- ===== src/Routing/Config/Load.antt =====
-- routing/config.ts: the configuration that a parsed file holds, and the first of a project's files
-- that says anything. A file is an option of its text: `none` has no path or cannot be read.
use assistant_context_router.Prelude.{
  String, Bool, true, false, ◌||◌, Option, none, some, List, [], ◌∷◌, ◌==◌, if◌then◌else◌, and_then,
  or_else, is_some,
}
use assistant_context_router.Value
use assistant_context_router.Value.{Value, Fields, get, as_bool, as_string, object_or_null}
use assistant_context_router.Host.{Host}
use assistant_context_router.Types.Routing.{
  ActionRouteConfig, RouterConfig, PolicyDefaults, RuntimeBinding, PreferredTarget, WorkflowFamily,
  AcceptanceMode, CompletionNotifyMode, StartMode,
}
use assistant_context_router.Yaml.Blocks.{parse_simple_yaml}

-- The value of a table of texts: `value === "a" ? a : value === "b" ? b : … : undefined`.
unfoldable pub enumerated : {A : Type 0} → List (String × A) → Option Value → Option A
enumerated [] value = none
enumerated ((text, a) ∷ rest) (some (Value.str s)) =
    let more = enumerated rest (some (Value.str s)) in if s == text then some a else more
enumerated ((text, a) ∷ rest) (some Value.null) = none
enumerated ((text, a) ∷ rest) (some (Value.bool b)) = none
enumerated ((text, a) ∷ rest) (some (Value.num n)) = none
enumerated ((text, a) ∷ rest) (some (Value.arr vs)) = none
enumerated ((text, a) ∷ rest) (some (Value.obj fs)) = none
enumerated ((text, a) ∷ rest) none = none

unfoldable pub normalize_target_kind : Option Value → Option PreferredTarget
unfolding enumerated
normalize_target_kind = enumerated (
    ("service", PreferredTarget.service)
    ∷ ("project_session", PreferredTarget.project_session)
    ∷ [])

unfoldable pub config_workflow : Option Value → Option WorkflowFamily
unfolding enumerated
config_workflow = enumerated (
    ("general", WorkflowFamily.general)
    ∷ ("dispatch", WorkflowFamily.dispatch)
    ∷ ("review", WorkflowFamily.review)
    ∷ [])

unfoldable pub normalize_acceptance_mode : Option Value → Option AcceptanceMode
unfolding enumerated
normalize_acceptance_mode = enumerated (
    ("manual_acceptance", AcceptanceMode.manual_acceptance)
    ∷ ("agent_can_finalize", AcceptanceMode.agent_can_finalize)
    ∷ [])

unfoldable pub normalize_completion_notify_mode : Option Value → Option CompletionNotifyMode
unfolding enumerated
normalize_completion_notify_mode = enumerated (
    ("dm_on_completion_boundary", CompletionNotifyMode.dm_on_completion_boundary)
    ∷ ("no_dm_on_completion_boundary", CompletionNotifyMode.no_dm_on_completion_boundary)
    ∷ [])

unfoldable pub normalize_start_mode : Option Value → Option StartMode
unfolding enumerated
normalize_start_mode = enumerated (
    ("manual_only", StartMode.manual_only)
    ∷ ("dispatch_on_create", StartMode.dispatch_on_create)
    ∷ ("agent_may_claim", StartMode.agent_may_claim)
    ∷ [])

unfoldable pub normalize_runtime_binding : Option Value → Option RuntimeBinding
normalize_runtime_binding value = and_then (as_string (get "runtime_kind" value)) (λ kind.
    and_then (as_string (get "target_ref" value)) (λ target. some (record {
      runtime_kind = kind;
      target_ref = target;
      metadata = object_or_null (get "metadata" value);
    })))

-- The defaults, unless none of them is set.
abbrev unless_empty : PolicyDefaults → Option (Option PolicyDefaults)
unless_empty d =
    if is_some d.acceptance_mode || is_some d.completion_notify_mode || is_some d.start_mode
    then some (some d)
    else none

unfoldable pub normalize_task_bug_policy : Option Value → Option (Option PolicyDefaults)
unfolding normalize_acceptance_mode normalize_completion_notify_mode normalize_start_mode
normalize_task_bug_policy value =
    let defaults = get "defaults" value in
    and_then (object_or_null defaults) (λ fields. unless_empty (record {
      acceptance_mode = normalize_acceptance_mode (get "acceptance_mode" defaults);
      completion_notify_mode =
          normalize_completion_notify_mode (get "completion_notify_mode" defaults);
      start_mode = normalize_start_mode (get "start_mode" defaults);
    }))

unfoldable pub action_config_of : Value → ActionRouteConfig
unfolding normalize_target_kind config_workflow
action_config_of item = record {
  target_kind = normalize_target_kind (get "target_kind" (some item));
  workflow = config_workflow (get "workflow" (some item));
  requires_resolved_project =
      some (or_else (as_bool (get "requires_resolved_project" (some item))) true);
}

unfoldable pub action_entries : Fields → List (String × ActionRouteConfig)
unfolding action_config_of
action_entries Value.end = []
action_entries (Value.field name item rest) = (name, action_config_of item) ∷ action_entries rest

unfoldable pub config_of : Value → RouterConfig
unfolding action_entries normalize_runtime_binding normalize_task_bug_policy
config_of parsed = record {
  actions =
      and_then (object_or_null (get "actions" (some parsed)))
        (λ fields. some (action_entries fields));
  service_binding = normalize_runtime_binding (get "service_binding" (some parsed));
  project_session_binding = normalize_runtime_binding (get "project_session_binding" (some parsed));
  task_bug_policy = normalize_task_bug_policy (get "task_bug_policy" (some parsed));
}

abbrev pub no_config : RouterConfig
no_config = record {
  actions = none;
  service_binding = none;
  project_session_binding = none;
  task_bug_policy = none;
}

-- `loadRouterConfig`; `none` is a parser out of fuel.
unfoldable pub load_router_config : Host → Option String → Option RouterConfig
unfolding config_of
load_router_config host none = some no_config
load_router_config host (some raw) =
    and_then (parse_simple_yaml host raw) (λ parsed. some (config_of parsed))

abbrev pub has_actions : Option (List (String × ActionRouteConfig)) → Bool
has_actions none = false
has_actions (some []) = false
has_actions (some (a ∷ actions)) = true

unfoldable pub says_something : RouterConfig → Bool
says_something config =
    has_actions config.actions
    || is_some config.service_binding
    || is_some config.project_session_binding
    || is_some config.task_bug_policy

-- `loadProjectRouterConfig`, of the texts of its candidates in their order.
unfoldable pub load_project_router_config : Host → List (Option String) → Option RouterConfig
unfolding load_router_config says_something
load_project_router_config host [] = some no_config
load_project_router_config host (file ∷ files) =
    let rest = load_project_router_config host files in
    and_then (load_router_config host file)
      (λ config. if says_something config then some config else rest)
