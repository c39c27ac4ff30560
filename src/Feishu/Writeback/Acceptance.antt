-- ===== src/Feishu/Writeback/Acceptance.antt =====
-- Rows that await a person's acceptance.
use assistant_context_router.Prelude.{
  String, false, Option, some, none, List, ◌≡◌, ◌≢◌, sym, ◌∙◌, ap, inl, inr, ◌==◌, ◌<|>◌,
  Bool-cases,
}
use assistant_context_router.Text.{is_empty}
use assistant_context_router.Value
use assistant_context_router.Value.{Value, Fields, lookup, merge_fields}
use assistant_context_router.Value.Laws.{lookup-merge_fields}
use assistant_context_router.Host.{Host}
use assistant_context_router.Types.Routing.{RouterConfig, AcceptanceMode}
use assistant_context_router.Feishu.Attempt.{returned}
use assistant_context_router.Feishu.Texts.{
  Target, ReviewDecision, parameter, normalize_review_resolution_decision,
}
use assistant_context_router.Feishu.Policy.{resolve_task_bug_policy}
use assistant_context_router.Feishu.Names.{Names, shared_names}
use assistant_context_router.Feishu.Metadata.{Field}
use assistant_context_router.Feishu.Patch.{effective_action, finished, input_action, decision_of}
use assistant_context_router.Feishu.Patch.Finality.{derive_writeback_patch-finished}
use assistant_context_router.Feishu.Writeback.{
  Plan, Request, changed_status, text_or_none, policy_of, plan_row, patch_input,
}
use assistant_context_router.Feishu.Writeback.Cells.{
  IsApart, written_names, text_cell, lookup-next_fields-status, lookup-next_fields-other,
}
use assistant_context_router.Feishu.Writeback.Lifecycle.{
  Run, row_of, status_of, plan_row-cases, current, derived,
}

-- The request says that a reviewer has accepted the row.
abbrev pub Accepts : Request → Type 0
Accepts request =
    (effective_action request.envelope request.service_result ≡ some "review_resolution")
    × (normalize_review_resolution_decision (parameter request.envelope.parameters "decision")
        ≡ some ReviewDecision.accepted)

-- A status cell that becomes `f` was `f`, or is given `f`.
written-text_or_none :
    (s f : String) (old : Option Value)
    → (text_cell (text_or_none s) <|> old) ≡ some (Value.str f)
    → old ≢ some (Value.str f)
    → ◌≡◌ {A = Option String} (some s) (some f)
written-text_or_none s f old h n = elim (Bool-cases (is_empty s)) [
  | inl t ↦ elim (n (rw t at h)) [ ]
  | inr e ↦ ap text_in (rw (e, e) at h)
]
  where
    text_in : Option Value → Option String
    text_in (some (Value.str t)) = some t
    text_in _ = none

written-changed_status :
    (status current : Option String) (f : String) (old : Option Value)
    → (text_cell (changed_status status current) <|> old) ≡ some (Value.str f)
    → old ≢ some (Value.str f)
    → status ≡ some f
written-changed_status none current f old h n = elim (n h) [ ]
written-changed_status (some s) none f old h n = written-text_or_none s f old h n
written-changed_status (some s) (some c) f old h n = elim (Bool-cases (s == c)) [
  | inl t ↦ elim (n (rw t at h)) [ ]
  | inr e ↦ written-text_or_none s f old (rw e at h) n
]

manual_agent : AcceptanceMode.manual_acceptance ≢ AcceptanceMode.agent_can_finalize
manual_agent h = cc

module _ (host : Host) (names : Names) (by_name : List (String × Field)) (target : Target)
    (config : RouterConfig) where
  -- The row's own setting and the router's ask for a person's acceptance.
  abbrev pub IsManual : Fields → Type 0
  IsManual fields =
      (policy_of config (shared_names names target.kind)
        (row_of host names by_name target fields)).acceptance_mode
      ≡ AcceptanceMode.manual_acceptance

  abbrev pub HasStatus : String → Fields → Type 0
  HasStatus text fields = status_of host names by_name target fields ≡ some (Value.str text)

  -- The columns that no writeback writes keep their value, so a manual row stays manual.
  IsManual-merge :
      (updates fields : Fields)
      → lookup (shared_names names target.kind).acceptance_mode updates ≡ none
      → IsManual fields
      → IsManual (merge_fields updates fields)
  unfolding policy_of resolve_task_bug_policy Value.get
  IsManual-merge updates fields e m =
      let key = (shared_names names target.kind).acceptance_mode in
      let same : lookup key (merge_fields updates fields) ≡ lookup key fields =
        lookup-merge_fields key updates fields ∙ ap (λ o. o <|> lookup key fields) e in
      ap (λ v. (resolve_task_bug_policy config v none).acceptance_mode) same ∙ m

  -- No patch finishes a manual row that is not accepted.
  refuse :
      (request : Request) (fields : Fields)
      → request.router_config ≡ config
      → ¬ Accepts request
      → IsManual fields
      → (derived host names request target (row_of host names by_name target fields)).status
        ≢ some (finished target.kind)
  unfolding input_action decision_of
  refuse request fields c refused manual e =
      let input = patch_input request names target.kind (row_of host names by_name target fields) in
      elim ((derive_writeback_patch-finished host input).0 e) [
        | inl accepted ↦ refused accepted
        | inr (a, agent, w, r, l) ↦
            let at_config =
              ap
                (λ d.
                  (policy_of d (shared_names names target.kind)
                    (row_of host names by_name target fields)).acceptance_mode)
                c in
            manual_agent (sym manual ∙ sym at_config ∙ agent)
      ]

  module _
      (status_apart : IsApart
        (shared_names names target.kind).status
        (written_names names target.kind))
      (mode_apart : IsApart
        (shared_names names target.kind).acceptance_mode
        (written_names names target.kind))
      (modes_differ : ((shared_names names target.kind).status
          == (shared_names names target.kind).acceptance_mode)
        ≡ false) where
    -- One writeback of a manual row, not accepted, leaves it manual and does not finish it.
    step-IsManual :
        (request : Request) (timestamp : String) (plan : Plan) (fields : Fields)
        → request.router_config ≡ config
        → ¬ Accepts request
        → plan_row host names request by_name timestamp target
            (row_of host names by_name target fields)
          ≡ returned plan
        → IsManual fields
        → ¬ HasStatus (finished target.kind) fields
        → IsManual (merge_fields plan.fields fields)
          × ¬ HasStatus (finished target.kind) (merge_fields plan.fields fields)
    unfolding merge_fields input_action decision_of
    step-IsManual request timestamp plan fields c refused h manual unfinished =
        let n = shared_names names target.kind in
        let row = row_of host names by_name target fields in
        let p = derived host names request target row in
        let now = current host names request target row in
        elim (plan_row-cases host names request target row by_name timestamp plan h) [
          | inl (o, e) ↦ rw e (manual, unfinished)
          | inr (r, time, e) ↦ (
            IsManual-merge plan.fields fields
                (ap (lookup n.acceptance_mode) e
                  ∙ lookup-next_fields-other names target.kind p now row time n.acceptance_mode
                      modes_differ mode_apart)
                manual,
            λ done. refuse request fields c refused manual (
                written-changed_status p.status now (finished target.kind)
                  (status_of host names by_name target fields)
                  (sym (
                      lookup-merge_fields n.status plan.fields fields
                      ∙ ap (λ o. o <|> status_of host names by_name target fields)
                          (ap (lookup n.status) e
                            ∙ lookup-next_fields-status names target.kind p now row time
                                status_apart))
                    ∙ done)
                  unfinished),
          )
        ]

    -- A row whose policy asks for a person's acceptance is never put to its finished status by requests
    -- that are not the acceptance by a reviewer, however many and in whatever order.
    pub Run-IsManual :
        {P : Request → Type 0} {fields last : Fields}
        → ((request : Request) → P request → (request.router_config ≡ config) × ¬ Accepts request)
        → IsManual fields
        → ¬ HasStatus (finished target.kind) fields
        → Run host names by_name target P fields last
        → IsManual last × ¬ HasStatus (finished target.kind) last
    Run-IsManual allowed m u Run.done = (m, u)
    Run-IsManual {P} {fields} {last} allowed m u (Run.step request timestamp plan p h run) =
        let (c, refused) = allowed request p in
        let (m', u') = step-IsManual request timestamp plan fields c refused h m u in
        Run-IsManual allowed m' u' run
