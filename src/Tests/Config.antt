-- ===== src/Tests/Config.antt =====
-- Configuration files, loaded.
use assistant_context_router.Prelude.{String, ◌⊎◌, none, some, [], ◌∷◌, ◌≡◌, refl, and_then}
use assistant_context_router.Value
use assistant_context_router.Value.{Value, Fields, lookup}
use assistant_context_router.Text.{
  trim, trim_start, trim_end, is_space, text_length, starts_with, all_chars, is_alnum,
}
use assistant_context_router.Types.Routing.{RouterConfig, TargetKind}
use assistant_context_router.Yaml.{
  cleaned_lines, strip_comment, scalar, indent_of, split_breaks, before_comment, is_number,
  is_unsigned,
}
use assistant_context_router.Yaml.Blocks.{
  parse_simple_yaml, parse_lines, parse_block, parse_sequence, parse_mapping, parse_item,
  parse_value, next_child_indent, key_value, inline_key_value, split_colon,
}
use assistant_context_router.Routing.Config.{configured_action}
use assistant_context_router.Routing.Config.Load.{
  load_router_config, load_project_router_config, no_config,
}
use assistant_context_router.Routing.Config.Defaults.{
  load_router_config-unresolved, load_project_router_config-IsFirst, IsFirst, AllBlank,
}
use assistant_context_router.Routing.Decision.{
  RouteInput, decide_route, is_structured, bound_project,
}
use assistant_context_router.State.CurrentProject.{read_current_project_binding}
use assistant_context_router.Tests.Samples.{sample_host, lost_message}

abbrev router_yaml : String
router_yaml = "actions:\n  dispatch:\n    target_kind: service\n"

abbrev dispatch_item : Value
dispatch_item = Value.obj (Value.field "target_kind" (Value.str "service") Value.end)

abbrev action_fields : Fields
action_fields = Value.field "dispatch" dispatch_item Value.end

abbrev router_value : Value
router_value = Value.obj (Value.field "actions" (Value.obj action_fields) Value.end)

router_yaml-parsed : parse_simple_yaml sample_host router_yaml ≡ some router_value
unfolding parse_simple_yaml cleaned_lines trim trim_start trim_end is_space text_length all_chars
    starts_with strip_comment scalar parse_lines parse_block parse_sequence parse_mapping parse_item
    parse_value next_child_indent key_value inline_key_value split_colon indent_of split_breaks
    before_comment is_number is_unsigned Value.set_field is_alnum
router_yaml-parsed = refl

-- A message for an action of the file.
abbrev configured_message : RouteInput
configured_message = record lost_message {
  action_config =
      and_then (load_router_config sample_host (some router_yaml))
        (λ config. configured_action config "dispatch");
}

load_router_config-unresolved_example :
    ((decide_route configured_message).target_kind ≡ TargetKind.safe_fail)
    × ((decide_route configured_message).escalation_reason ≡ some "unresolved_project")
unfolding Value.get lookup is_structured bound_project read_current_project_binding
load_router_config-unresolved_example =
    load_router_config-unresolved sample_host router_yaml "dispatch" router_value dispatch_item
      action_fields configured_message router_yaml-parsed refl refl (λ h. cc) refl refl refl refl

load_project_router_config-IsFirst_example :
    (config : RouterConfig) × (load_project_router_config sample_host (none ∷ some router_yaml ∷ [])
      ≡ some config)
    × (IsFirst sample_host (none ∷ some router_yaml ∷ []) config
        ⊎ (AllBlank sample_host (none ∷ some router_yaml ∷ []) × (config ≡ no_config)))
load_project_router_config-IsFirst_example =
    load_project_router_config-IsFirst sample_host (none ∷ some router_yaml ∷ [])
