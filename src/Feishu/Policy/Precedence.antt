-- ===== src/Feishu/Policy/Precedence.antt =====
-- The order in which the settings of a row's policy are looked for.
use assistant_context_router.Prelude.{
  Option, none, some, List, [], ◌∷◌, ◌≡◌, refl, and_then, or_else,
}
use assistant_context_router.Value.{Value}
use assistant_context_router.Types.Routing.{
  AcceptanceMode, CompletionNotifyMode, StartMode, RouterConfig, PolicyDefaults,
}
use assistant_context_router.Routing.Config.{policy_defaults}
use assistant_context_router.Feishu.Texts.{
  Override, inherit, mode, normalize_acceptance_override, normalize_completion_notify_override,
}
use assistant_context_router.Feishu.Policy.{
  PolicySource, resolve_task_bug_policy, overridden, overridden_source, default_source,
}

-- The first source that has a setting, with the setting.
abbrev pub first_set :
    {Mode : Type 0} → List (PolicySource × Option Mode) → Mode → PolicySource × Mode
first_set [] builtin = (PolicySource.builtin_default, builtin)
first_set ((source, none) ∷ rest) builtin = first_set rest builtin
first_set ((source, some m) ∷ rest) builtin = (source, m)

-- A row's setting, if it has one of its own.
abbrev pub own : {Mode : Type 0} → Option (Override Mode) → Option Mode
own none = none
own (some inherit) = none
own (some (mode m)) = some m

abbrev pub router_default :
    {Mode : Type 0} → RouterConfig → (PolicyDefaults → Option Mode) → Option Mode
router_default config field = and_then (policy_defaults config) field

module _ (config : RouterConfig) (row_acceptance row_notify : Option Value) where
  -- Each setting of the policy, and the source named for it, is the first of the row's own, the
  -- router's default and the built-in one; the start mode is never a row's own.
  pub resolve_task_bug_policy-precedence :
      let p = resolve_task_bug_policy config row_acceptance row_notify in
      ((p.acceptance_mode_source, p.acceptance_mode)
        ≡ first_set
            ((PolicySource.row_override, own (normalize_acceptance_override row_acceptance))
              ∷ (PolicySource.router_default, router_default config (λ d. d.acceptance_mode))
              ∷ [])
            AcceptanceMode.manual_acceptance)
      × ((p.completion_notify_mode_source, p.completion_notify_mode)
          ≡ first_set
              ((PolicySource.row_override, own (normalize_completion_notify_override row_notify))
                ∷ (
                  PolicySource.router_default,
                  router_default config (λ d. d.completion_notify_mode),
                )
                ∷ [])
              CompletionNotifyMode.no_dm_on_completion_boundary)
      × ((p.start_mode_source, p.start_mode)
          ≡ first_set
              ((PolicySource.router_default, router_default config (λ d. d.start_mode)) ∷ [])
              StartMode.manual_only)
  unfolding resolve_task_bug_policy
  resolve_task_bug_policy-precedence = (
    row_first (normalize_acceptance_override row_acceptance)
        (router_default config (λ d. d.acceptance_mode)) AcceptanceMode.manual_acceptance,
    row_first (normalize_completion_notify_override row_notify)
        (router_default config (λ d. d.completion_notify_mode))
        CompletionNotifyMode.no_dm_on_completion_boundary,
    router_first (router_default config (λ d. d.start_mode)),
  )
    where
      row_first :
          {Mode : Type 0} (o : Option (Override Mode)) (r : Option Mode) (b : Mode)
          → (
            overridden_source (or_else o inherit) (default_source r),
            overridden (or_else o inherit) (or_else r b),
          )
            ≡ first_set
                ((PolicySource.row_override, own o) ∷ (PolicySource.router_default, r) ∷ [])
                b
      row_first none none b = refl
      row_first none (some m) b = refl
      row_first (some inherit) none b = refl
      row_first (some inherit) (some m) b = refl
      row_first (some (mode n)) r b = refl

      router_first :
          (r : Option StartMode)
          → (default_source r, or_else r StartMode.manual_only)
            ≡ first_set ((PolicySource.router_default, r) ∷ []) StartMode.manual_only
      router_first none = refl
      router_first (some m) = refl
