-- ===== src/Routing/Config/Merge.antt =====
-- What a merged configuration says of an action.
use assistant_context_router.Prelude.{
  ◌≡◌, refl, ◌∙◌, not, String, Option, none, some, is_some, Bool-cases, inl, inr, List, [], ◌∷◌,
  ◌++◌, ◌==◌, eq_iff, eq_refl, filter, map, if◌then◌else◌, ◌<|>◌, or_else, and_then,
}
use assistant_context_router.Types.Routing.{RouterConfig, ActionRouteConfig}
use assistant_context_router.Routing.Config.{
  action_of, spread, merge_router_configs, configured_action,
}

module _ {A : Type 0} (name : String) where
  action_of-append :
      (xs ys : List (String × A))
      → action_of name (xs ++ ys) ≡ (action_of name xs <|> action_of name ys)
  unfolding action_of
  action_of-append [] ys = refl
  action_of-append ((k, a) ∷ xs) ys = elim (Bool-cases (k == name)) [
    | inl t ↦ rw t refl
    | inr f ↦ rw f (action_of-append xs ys)
  ]

  -- The overlaid values of the base's keys.
  action_of-overlay :
      (override base : List (String × A))
      → action_of name (map (λ entry. (entry.0, or_else (action_of entry.0 override) entry.1)) base)
        ≡ and_then (action_of name base) (λ a. some (or_else (action_of name override) a))
  unfolding action_of
  action_of-overlay override [] = refl
  action_of-overlay override ((k, a) ∷ base) = elim (Bool-cases (k == name)) [
    | inl t ↦ rw (t, (eq_iff k name).0 t) refl
    | inr f ↦ rw f (action_of-overlay override base)
  ]

  -- The keys that the base does not have.
  action_of-others :
      (base override : List (String × A))
      → action_of name (filter (λ entry. not (is_some (action_of entry.0 base))) override)
        ≡ (if is_some (action_of name base) then none else action_of name override)
  unfolding action_of
  action_of-others base [] = elim (Bool-cases (is_some (action_of name base))) [
    | inl t ↦ rw t refl
    | inr f ↦ rw f refl
  ]
  action_of-others base ((k, a) ∷ override) = elim (Bool-cases (k == name)) [
    | inl t ↦ (elim (Bool-cases (is_some (action_of name base))) [
      | inl h ↦ rw ((eq_iff k name).0 t, h, action_of-others base override, h) refl
      | inr n ↦ rw ((eq_iff k name).0 t, n, eq_refl name) refl
    ])
    | inr f ↦ (elim (Bool-cases (is_some (action_of k base))) [
      | inl h ↦ rw (h, f) (action_of-others base override)
      | inr n ↦ rw (n, f) (action_of-others base override)
    ])
  ]

  -- An entry of a spread is the override's, or else the base's.
  pub action_of-spread :
      (base override : List (String × A))
      → action_of name (spread base override) ≡ (action_of name override <|> action_of name base)
  unfolding spread
  action_of-spread base override =
      action_of-append (map (λ entry. (entry.0, or_else (action_of entry.0 override) entry.1)) base)
        (filter (λ entry. not (is_some (action_of entry.0 base))) override)
      ∙ rw (action_of-overlay override base, action_of-others base override)
          (overlaid (action_of name base) (action_of name override))
    where
      overlaid :
          (b o : Option A)
          → (and_then b (λ a. some (or_else o a)) <|> (if is_some b then none else o)) ≡ (o <|> b)
      overlaid none none = refl
      overlaid none (some a) = refl
      overlaid (some b) none = refl
      overlaid (some b) (some a) = refl

-- A merged configuration configures every action as the override does if it has the action, and as
-- the base does if not: an action is taken over whole, and none is lost or added.
pub configured_action-merge_router_configs :
    (base override : RouterConfig) (name : String)
    → configured_action (merge_router_configs base override) name
      ≡ (configured_action override name <|> configured_action base name)
unfolding configured_action merge_router_configs
configured_action-merge_router_configs base override name =
    action_of-spread name (or_else base.actions []) (or_else override.actions [])
    ∙ absent base.actions override.actions
  where
    absent :
        (b o : Option (List (String × ActionRouteConfig)))
        → (action_of name (or_else o []) <|> action_of name (or_else b [])) ≡ (
            and_then o (λ actions. action_of name actions)
            <|> and_then b (λ actions. action_of name actions))
    absent none none = refl
    absent none (some xs) = refl
    absent (some xs) none = refl
    absent (some xs) (some ys) = refl
