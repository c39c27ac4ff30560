-- ===== src/Feishu/Writeback/Effect.antt =====
-- What an accepted review makes of a row.
use assistant_context_router.Prelude.{
  ℕ, String, false, [], ◌≢◌, ◌⊎◌, Option, some, none, List, ◌≡◌, refl, sym, ◌∙◌, ap, inl, inr, ◌==◌,
  ◌<|>◌, Bool-cases, eq_iff, or_else,
}
use assistant_context_router.Text.{is_empty, trim, trim_start, trim_end, is_space}
use assistant_context_router.Value
use assistant_context_router.Value.{Value, Fields, lookup, merge_fields}
use assistant_context_router.Value.Laws.{lookup-merge_fields}
use assistant_context_router.Host.{Host}
use assistant_context_router.Feishu.Attempt.{returned, thrown}
use assistant_context_router.Feishu.Texts.{Kind, Target, normalize_text_value}
use assistant_context_router.Feishu.Names.{Names, shared_names}
use assistant_context_router.Feishu.Metadata.{Field, validate_select_coverage, uncovered}
use assistant_context_router.Feishu.Metadata.Checks.{
  uncovered_error, validate_select_coverage-cases,
}
use assistant_context_router.Feishu.Patch.{
  WritebackPatch, effective_action, finished, input_action, decision_of, should_noop_for_status,
}
use assistant_context_router.Feishu.Patch.Finality.{derive_writeback_patch-finished}
use assistant_context_router.Feishu.Writeback.{
  Plan, Operation, Request, changed_status, text_or_none, next_fields, policy_of, patch_input,
  to_feishu_datetime, update_plan, plan_update, plan_row, current_status_of,
}
use assistant_context_router.Feishu.Writeback.Cells.{
  IsApart, written_names, text_cell, lookup-next_fields-status,
}
use assistant_context_router.Feishu.Writeback.Lifecycle.{
  row_of, status_of, current, derived, noop_reason,
}
use assistant_context_router.Feishu.Writeback.Acceptance.{Accepts}

text_or_none-back : (text : String) → or_else (text_or_none text) "" ≡ text
text_or_none-back String.[] = refl
text_or_none-back (String.◌∷◌ c s) = refl

-- A review resolution is held back by an archived row only.
should_noop-resolution :
    (kind : Kind) (action current : Option String) (p : WritebackPatch)
    → action ≡ some "review_resolution"
    → ("Archived" == trim (or_else current "")) ≡ false
    → should_noop_for_status kind action current p ≡ none
unfolding should_noop_for_status
should_noop-resolution kind action current p a h =
    rw a (elim (Bool-cases (is_empty (trim (or_else current "")))) [
      | inl t ↦ rw t refl
      | inr f ↦ rw f (rw h refl)
    ])

-- The status text after a writeback that gives the finished status.
finished-written :
    (kind : Kind) (text : String) (cell : Option Value)
    → normalize_text_value cell ≡ text
    → normalize_text_value
        (text_cell (changed_status (some (finished kind)) (text_or_none text)) <|> cell)
      ≡ finished kind
unfolding normalize_text_value trim trim_start trim_end is_space
finished-written Kind.task String.[] cell h = refl
finished-written Kind.bug String.[] cell h = refl
finished-written Kind.task (String.◌∷◌ c s) cell h = elim (Bool-cases ("Done" == String.◌∷◌ c s)) [
  | inl t ↦ rw t (h ∙ sym ((eq_iff "Done" (String.◌∷◌ c s)).0 t))
  | inr f ↦ rw f refl
]
finished-written Kind.bug (String.◌∷◌ c s) cell h = elim (Bool-cases ("Fixed" == String.◌∷◌ c s)) [
  | inl t ↦ rw t (h ∙ sym ((eq_iff "Fixed" (String.◌∷◌ c s)).0 t))
  | inr f ↦ rw f refl
]

module _ (host : Host) (names : Names) (by_name : List (String × Field)) (timestamp : String)
    (target : Target) (request : Request) (fields : Fields) where
  -- The cells that the writeback at a time plans.
  abbrev pub planned_cells : ℕ → Fields
  planned_cells ms =
      let row = row_of host names by_name target fields in
      next_fields names target.kind (derived host names request target row)
        (current host names request target row) row (Value.num (host.number_text ms))

  abbrev pub planned : ℕ → Plan
  planned ms =
      let row = row_of host names by_name target fields in
      update_plan host names target row (current host names request target row)
        (policy_of request.router_config (shared_names names target.kind) row)
        (derived host names request target row) ms

  -- With no reason against it, a time that parses and columns that take the values, a plan is made.
  plan_row-updated :
      (ms : ℕ)
      → noop_reason host names request target (row_of host names by_name target fields) ≡ none
      → host.get_time timestamp ≡ some ms
      → validate_select_coverage target.kind by_name (planned_cells ms) ≡ returned tt
      → plan_row host names request by_name timestamp target
          (row_of host names by_name target fields)
        ≡ returned (planned ms)
  unfolding plan_row plan_update update_plan to_feishu_datetime
  plan_row-updated ms r t v = rw (r, plan_row) (rw (t, plan_update) (rw v refl))

  -- With no reason against it and a time that parses, an uncovered cell stops the plan.
  plan_row-uncovered :
      (ms : ℕ) (error : String)
      → noop_reason host names request target (row_of host names by_name target fields) ≡ none
      → host.get_time timestamp ≡ some ms
      → validate_select_coverage target.kind by_name (planned_cells ms) ≡ thrown error
      → plan_row host names request by_name timestamp target
          (row_of host names by_name target fields)
        ≡ thrown error
  unfolding plan_row plan_update update_plan to_feishu_datetime
  plan_row-uncovered ms error r t v = rw (r, plan_row) (rw (t, plan_update) (rw v refl))

  -- A plan that updates the row, and after which the row has the finished status of its kind.
  abbrev pub IsFinishing : Plan → Type 0
  IsFinishing plan =
      (plan.operation ≡ Operation.updated)
      × (normalize_text_value
            (status_of host names by_name target (merge_fields plan.fields fields))
          ≡ finished target.kind)

  planned-IsFinishing :
      (ms : ℕ)
      → Accepts request
      → IsApart (shared_names names target.kind).status (written_names names target.kind)
      → IsFinishing (planned ms)
  unfolding Value.get update_plan input_action decision_of current_status_of
  planned-IsFinishing ms accepts apart =
      let row = row_of host names by_name target fields in
      let now = current host names request target row in
      let p = derived host names request target row in
      let cell = status_of host names by_name target fields in
      let n = shared_names names target.kind in
      let status =
        (derive_writeback_patch-finished host (patch_input request names target.kind row)).1
          (inl accepts) in
      let written =
        lookup-merge_fields n.status (planned_cells ms) fields
        ∙ ap (λ o. o <|> cell)
            (lookup-next_fields-status names target.kind p now row (Value.num (host.number_text ms))
                apart
              ∙ ap (λ s. text_cell (changed_status s now)) status) in
      (
        refl,
        ap normalize_text_value written
            ∙ finished-written target.kind (normalize_text_value cell) cell refl,
      )

  -- Where a reviewer accepts a row that is not archived, whatever its status and policy, the time of
  -- the writeback parses, and the status column is none of the other columns that are written: if
  -- every planned cell is covered by the options of its column, the writeback is planned and the row
  -- that it is merged into has the finished status; if not, no plan is made and the error
  -- `missing-feishu-enum-options` names the uncovered cells.
  pub plan_row-accepted :
      (ms : ℕ)
      → Accepts request
      → ("Archived" == trim (normalize_text_value (status_of host names by_name target fields)))
        ≡ false
      → host.get_time timestamp ≡ some ms
      → IsApart (shared_names names target.kind).status (written_names names target.kind)
      → ((uncovered by_name (planned_cells ms) ≡ [])
          × (plan : Plan) × (plan_row host names request by_name timestamp target
                (row_of host names by_name target fields)
              ≡ returned plan)
          × IsFinishing plan)
        ⊎ ((uncovered by_name (planned_cells ms) ≢ [])
            × (plan_row host names request by_name timestamp target
                  (row_of host names by_name target fields)
                ≡ thrown (uncovered_error target.kind by_name (planned_cells ms))))
  unfolding current_status_of Value.get
  plan_row-accepted ms accepts unarchived t apart =
      let row = row_of host names by_name target fields in
      let cell = status_of host names by_name target fields in
      let reason =
        should_noop-resolution target.kind
          (effective_action request.envelope request.service_result)
          (current host names request target row) (derived host names request target row)
          (accepts.0)
          (ap (λ s. "Archived" == trim s) (text_or_none-back (normalize_text_value cell))
            ∙ unarchived) in
      elim (validate_select_coverage-cases target.kind by_name (planned_cells ms)) [
        | inl c ↦ inl (
          c.0,
          planned ms,
          plan_row-updated ms reason t c.1,
          planned-IsFinishing ms accepts apart,
        )
        | inr c ↦ inr (c.0, plan_row-uncovered ms _ reason t c.1)
      ]
