-- ===== src/Routing/Config.antt =====
-- routing/config.ts, `mergeRouterConfigs`: a project's configuration over the common one.
pub mod Merge
pub mod Load
pub mod Defaults
use assistant_context_router.Prelude.{
  String, Bool, not, Option, none, some, List, [], ◌∷◌, ◌++◌, ◌==◌, ◌<|>◌, filter, map,
  if◌then◌else◌, and_then, or_else, is_some,
}
use assistant_context_router.Types.Routing.{ActionRouteConfig, RouterConfig, PolicyDefaults}

-- `actions[name]`, for an object given by its entries.
unfoldable pub action_of : {A : Type 0} → String → List (String × A) → Option A
action_of name [] = none
action_of name ((k, a) ∷ rest) =
    let more = action_of name rest in if k == name then some a else more

-- `{ ...base, ...override }`: the keys of the first, with the values of the second where it has the
-- key, then the other keys of the second.
unfoldable pub spread : {A : Type 0} → List (String × A) → List (String × A) → List (String × A)
unfolding action_of
spread base override =
    map (λ entry. (entry.0, or_else (action_of entry.0 override) entry.1)) base
    ++ filter (λ entry. not (is_some (action_of entry.0 base))) override

-- `config.task_bug_policy?.defaults`
abbrev pub policy_defaults : RouterConfig → Option PolicyDefaults
policy_defaults config = and_then config.task_bug_policy (λ policy. policy)

unfoldable pub merge_router_configs : RouterConfig → RouterConfig → RouterConfig
unfolding spread
merge_router_configs base override = record {
  actions = some (spread (or_else base.actions []) (or_else override.actions []));
  service_binding = override.service_binding <|> base.service_binding;
  project_session_binding = override.project_session_binding <|> base.project_session_binding;
  task_bug_policy = some (
      some (record {
        acceptance_mode =
            and_then (policy_defaults override) (λ d. d.acceptance_mode)
            <|> and_then (policy_defaults base) (λ d. d.acceptance_mode);
        completion_notify_mode =
            and_then (policy_defaults override) (λ d. d.completion_notify_mode)
            <|> and_then (policy_defaults base) (λ d. d.completion_notify_mode);
        start_mode =
            and_then (policy_defaults override) (λ d. d.start_mode)
            <|> and_then (policy_defaults base) (λ d. d.start_mode);
      }));
}

-- `config.actions?.[name]`
unfoldable pub configured_action : RouterConfig → String → Option ActionRouteConfig
unfolding action_of
configured_action config name = and_then config.actions (λ actions. action_of name actions)
