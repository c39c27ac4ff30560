-- ===== src/Routing/Config/Defaults.antt =====
-- What a configuration file leaves out, up to the decision on a message.
use assistant_context_router.Prelude.{
  String, true, false, Option, none, some, List, [], ◌∷◌, ◌≡◌, ◌≢◌, refl, ◌∙◌, inl, inr, ◌==◌,
  and_then, or_else, Bool-cases, All, ◌⊎◌, ◌++◌, ◌||◌, is_some, ap,
}
use assistant_context_router.Value
use assistant_context_router.Value.{Value, Fields, get, lookup, as_bool}
use assistant_context_router.Host.{Host}
use assistant_context_router.Types.Routing.{RouterConfig, ActionRouteConfig, TargetKind}
use assistant_context_router.Yaml.Blocks.{parse_simple_yaml}
use assistant_context_router.Yaml.Blocks.Termination.{parse_simple_yaml-answers}
use assistant_context_router.Routing.Config.{action_of, configured_action}
use assistant_context_router.Routing.Config.Load.{
  action_config_of, action_entries, config_of, no_config, load_router_config,
  load_project_router_config, says_something, has_actions,
}
use assistant_context_router.Routing.Decision.{
  RouteInput, decide_route, is_structured, requires_resolved_project, bound_project,
}
use assistant_context_router.Routing.Decision.Safety.{decide_route-unresolved}

action_of-action_entries :
    (name : String) (fields : Fields)
    → action_of name (action_entries fields)
      ≡ and_then (lookup name fields) (λ v. some (action_config_of v))
unfolding action_of action_entries lookup
action_of-action_entries name Value.end = refl
action_of-action_entries name (Value.field k v rest) = elim (Bool-cases (k == name)) [
  | inl t ↦ rw t refl
  | inr f ↦ rw f (action_of-action_entries name rest)
]

asks_unless_false :
    (value : Option Value) → value ≢ some (Value.bool false) → or_else (as_bool value) true ≡ true
unfolding as_bool
asks_unless_false none h = refl
asks_unless_false (some Value.null) h = refl
asks_unless_false (some (Value.bool true)) h = refl
asks_unless_false (some (Value.bool false)) h = elim (h refl) [ ]
asks_unless_false (some (Value.num n)) h = refl
asks_unless_false (some (Value.str s)) h = refl
asks_unless_false (some (Value.arr vs)) h = refl
asks_unless_false (some (Value.obj fs)) h = refl

-- A message for an action that a configuration file describes is refused as `unresolved_project` when
-- it is structured, no project is known, and the file does not say
-- `requires_resolved_project: false`, whatever else it says.
pub load_router_config-unresolved :
    (host : Host) (raw name : String) (parsed item : Value) (fields : Fields) (input : RouteInput)
    → parse_simple_yaml host raw ≡ some parsed
    → get "actions" (some parsed) ≡ some (Value.obj fields)
    → lookup name fields ≡ some item
    → get "requires_resolved_project" (some item) ≢ some (Value.bool false)
    → input.action_config
      ≡ and_then (load_router_config host (some raw)) (λ config. configured_action config name)
    → is_structured input ≡ true
    → input.envelope.resolved_project_id ≡ none
    → bound_project input ≡ none
    → ((decide_route input).target_kind ≡ TargetKind.safe_fail)
      × ((decide_route input).escalation_reason ≡ some "unresolved_project")
unfolding load_router_config config_of configured_action Value.object_or_null action_config_of
    requires_resolved_project
load_router_config-unresolved host raw name parsed item fields input p a l r c s e b =
    let loaded : input.action_config ≡ some (action_config_of item) =
      c ∙ rw p (rw a (action_of-action_entries name fields ∙ rw l refl)) in
    let asks : requires_resolved_project input ≡ true =
      rw loaded (asks_unless_false (get "requires_resolved_project" (some item)) r) in
    let refused = decide_route-unresolved input s asks e b in (refused.0, refused.2)

-- The configuration of a file.
abbrev pub config_in : Host → Option String → RouterConfig
config_in host file = or_else (load_router_config host file) no_config

load_router_config-config_in :
    (host : Host) (file : Option String) → load_router_config host file ≡ some (config_in host file)
unfolding load_router_config
load_router_config-config_in host none = refl
load_router_config-config_in host (some raw) =
    let (v, e) = parse_simple_yaml-answers host raw in rw e refl

-- A configuration that sets nothing: no action, no binding and no policy.
abbrev pub IsBlank : RouterConfig → Type 0
IsBlank config =
    ((config.actions ≡ none) ⊎ (config.actions ≡ some []))
    × (config.service_binding ≡ none)
    × (config.project_session_binding ≡ none)
    × (config.task_bug_policy ≡ none)

IsBlank-silent : (config : RouterConfig) → says_something config ≡ false → IsBlank config
unfolding says_something
IsBlank-silent config silent =
    by_fields config.actions config.service_binding config.project_session_binding
      config.task_bug_policy silent
  where
    by_fields :
        {B C D : Type 0} (a : Option (List (String × ActionRouteConfig))) (b : Option B)
        (c : Option C) (d : Option D)
        → (has_actions a || is_some b || is_some c || is_some d) ≡ false
        → ((a ≡ none) ⊎ (a ≡ some [])) × (b ≡ none) × (c ≡ none) × (d ≡ none)
    by_fields none none none none h = (inl refl, refl, refl, refl)
    by_fields (some []) none none none h = (inr refl, refl, refl, refl)
    by_fields none none none (some d) h = cc
    by_fields none none (some c) d h = cc
    by_fields none (some b) c d h = cc
    by_fields (some []) none none (some d) h = cc
    by_fields (some []) none (some c) d h = cc
    by_fields (some []) (some b) c d h = cc
    by_fields (some (a ∷ more)) b c d h = cc

blank-silent : (config : RouterConfig) → IsBlank config → says_something config ≡ false
unfolding says_something
blank-silent config (inl a, b, c, d) = rw (a, b, c, d) refl
blank-silent config (inr a, b, c, d) = rw (a, b, c, d) refl

module _ (host : Host) where
  -- Every one of the files sets nothing.
  abbrev pub AllBlank : List (Option String) → Type 0
  AllBlank files = All (λ file. IsBlank (config_in host file)) files

  -- The configuration of a file that sets something, and that only files that set nothing precede.
  abbrev pub IsFirst : List (Option String) → RouterConfig → Type 0
  IsFirst files config =
      (skipped : List (Option String)) × (file : Option String) × (rest : List (Option String))
      × (files ≡ skipped ++ file ∷ rest)
      × AllBlank skipped
      × (¬ IsBlank (config_in host file))
      × (config ≡ config_in host file)

  -- A project's configuration is always found. Either it is that of a file that sets an action, a
  -- binding or a policy, while the files before it set none of these; or no file sets any, and it
  -- is the empty configuration.
  pub load_project_router_config-IsFirst :
      (files : List (Option String))
      → (config : RouterConfig) × (load_project_router_config host files ≡ some config)
        × (IsFirst files config ⊎ (AllBlank files × (config ≡ no_config)))
  unfolding load_project_router_config
  load_project_router_config-IsFirst [] = (no_config, refl, inr (tt, refl))
  load_project_router_config-IsFirst (file ∷ files) =
      elim (Bool-cases (says_something (config_in host file))) [
        | inl says ↦ (
          config_in host file,
          rw (load_router_config-config_in host file) (rw says refl),
          inl (
            [],
            file,
            files,
            refl,
            tt,
            λ blank. let silent = blank-silent (config_in host file) blank in cc,
            refl,
          ),
        )
        | inr silent ↦
            let blank = IsBlank-silent (config_in host file) silent in
            let (config, found, where_from) = load_project_router_config-IsFirst files in
            (
              config,
              rw (load_router_config-config_in host file) (rw silent found),
              elim where_from [
                | inl (skipped, first, rest, parts, blanks, sets, same) ↦ inl (
                  file ∷ skipped,
                  first,
                  rest,
                  ap (λ fs. file ∷ fs) parts,
                  (blank, blanks),
                  sets,
                  same,
                )
                | inr (blanks, empty) ↦ inr ((blank, blanks), empty)
              ],
            )
      ]
