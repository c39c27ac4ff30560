-- ===== src/Feishu/Policy.antt =====
-- adapters/feishu/src/task-bug-writeback.ts: the policy of a row, from its own settings, the router's
-- defaults and the built-in ones.
pub mod Precedence
use assistant_context_router.Prelude.{
  Bool, true, false, Option, none, some, or_else, and_then, if◌then◌else◌, is_some,
}
use assistant_context_router.Value.{Value}
use assistant_context_router.Types.Routing.{
  AcceptanceMode, CompletionNotifyMode, StartMode, RouterConfig,
}
use assistant_context_router.Routing.Config.{policy_defaults}
use assistant_context_router.Feishu.Texts.{
  Override, inherit, mode, normalize_acceptance_override, normalize_completion_notify_override,
}

pub data PolicySource : Type 0 where
  builtin_default router_default row_override : PolicySource

pub record ResolvedPolicy : Type 0 where
  pub acceptance_mode : AcceptanceMode
  pub completion_notify_mode : CompletionNotifyMode
  pub start_mode : StartMode
  pub acceptance_mode_source : PolicySource
  pub completion_notify_mode_source : PolicySource
  pub start_mode_source : PolicySource
  pub row_acceptance_mode : Override AcceptanceMode
  pub row_completion_notify_mode : Override CompletionNotifyMode

-- The source of a setting that the row does not have.
abbrev pub default_source : {Mode : Type 0} → Option Mode → PolicySource
default_source none = PolicySource.builtin_default
default_source (some m) = PolicySource.router_default

-- `row !== "inherit" ? row : default`
abbrev pub overridden : {Mode : Type 0} → Override Mode → Mode → Mode
overridden inherit default = default
overridden (mode m) default = m

abbrev pub overridden_source : {Mode : Type 0} → Override Mode → PolicySource → PolicySource
overridden_source inherit source = source
overridden_source (mode m) source = PolicySource.row_override

unfoldable pub resolve_task_bug_policy : RouterConfig → Option Value → Option Value → ResolvedPolicy
resolve_task_bug_policy config acceptance_override completion_notify_override =
    let acceptance = and_then (policy_defaults config) (λ d. d.acceptance_mode) in
    let notify = and_then (policy_defaults config) (λ d. d.completion_notify_mode) in
    let start = and_then (policy_defaults config) (λ d. d.start_mode) in
    let row_acceptance = or_else (normalize_acceptance_override acceptance_override) inherit in
    let row_notify =
      or_else (normalize_completion_notify_override completion_notify_override) inherit in
    record {
      acceptance_mode =
          overridden row_acceptance (or_else acceptance AcceptanceMode.manual_acceptance);
      completion_notify_mode =
          overridden row_notify (or_else notify CompletionNotifyMode.no_dm_on_completion_boundary);
      start_mode = or_else start StartMode.manual_only;
      acceptance_mode_source = overridden_source row_acceptance (default_source acceptance);
      completion_notify_mode_source = overridden_source row_notify (default_source notify);
      start_mode_source = default_source start;
      row_acceptance_mode = row_acceptance;
      row_completion_notify_mode = row_notify;
    }
