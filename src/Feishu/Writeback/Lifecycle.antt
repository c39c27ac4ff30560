-- ===== src/Feishu/Writeback/Lifecycle.antt =====
-- What a sequence of writebacks can make of a row. Each step plans a writeback for the row as it
-- stands and merges the planned cells into it, as the table does on an update.
use assistant_context_router.Prelude.{
  String, false, Option, some, none, List, ◌≡◌, ◌≢◌, refl, sym, ◌∙◌, ap, ◌⊎◌, inl, inr, ◌==◌,
  Option-cases, Bool-cases, eq_iff,
}
use assistant_context_router.Value
use assistant_context_router.Value.{Value, Fields, lookup, merge_fields}
use assistant_context_router.Host.{Host}
use assistant_context_router.Feishu.Attempt.{Attempt, returned, thrown, bind-returned}
use assistant_context_router.Feishu.Texts.{Kind, Target, normalize_text_value}
use assistant_context_router.Feishu.Policy.{ResolvedPolicy}
use assistant_context_router.Feishu.Names.{Names, shared_names}
use assistant_context_router.Feishu.Metadata.{Field, Row, validate_select_coverage, cell}
use assistant_context_router.Feishu.Patch.{
  WritebackPatch, effective_action, derive_writeback_patch, should_noop_for_status, finished,
  is_action,
}
use assistant_context_router.Feishu.Patch.Noop.{should_noop-archived, should_noop-finished}
use assistant_context_router.Feishu.Writeback.{
  Plan, Operation, Request, to_feishu_datetime, next_fields, current_status_of, policy_of,
  patch_input, plan_noop, text_or_none, plan_update, update_plan, checked_plan, plan_row,
}

abbrev fields_in : Attempt Plan → Fields
fields_in (returned q) = q.fields
fields_in (thrown e) = Value.end

abbrev operation_in : Attempt Plan → Operation
operation_in (returned q) = q.operation
operation_in (thrown e) = Operation.noop

module _ (host : Host) (names : Names) (by_name : List (String × Field)) (timestamp : String)
    (target : Target) (row : Row) (current : Option String) (policy : ResolvedPolicy)
    (p : WritebackPatch) where
  plan_update-fields :
      (plan : Plan)
      → plan_update host names by_name timestamp target row current policy p ≡ returned plan
      → (time : Value) × (plan.fields ≡ next_fields names target.kind p current row time)
  unfolding plan_update update_plan
  plan_update-fields plan h =
      let planned = update_plan host names target row current policy p in
      let (time, e, h1) =
        bind-returned (to_feishu_datetime host timestamp) (λ t. checked_plan by_name (planned t))
          plan h in
      let checked = validate_select_coverage target.kind by_name (planned time).fields in
      let (u, e1, h2) = bind-returned checked (λ v. returned (planned time)) plan h1 in
      (Value.num (host.number_text time), ap fields_in (sym h2))

text_or_none-finished : (kind : Kind) → text_or_none (finished kind) ≡ some (finished kind)
text_or_none-finished Kind.task = refl
text_or_none-finished Kind.bug = refl

is_action-ne :
    (action : Option String) (name : String) → action ≢ some name → is_action action name ≡ false
is_action-ne none name h = refl
is_action-ne (some a) name h = elim (Bool-cases (a == name)) [
  | inl t ↦ elim (h (ap some ((eq_iff a name).0 t))) [ ]
  | inr f ↦ f
]

module _ (host : Host) (names : Names) (request : Request) (target : Target) (row : Row) where
  abbrev pub current : Option String
  current = current_status_of (shared_names names target.kind) row

  abbrev pub derived : WritebackPatch
  derived = derive_writeback_patch host (patch_input request names target.kind row)

  abbrev pub noop_reason : Option String
  noop_reason =
      should_noop_for_status target.kind (effective_action request.envelope request.service_result)
        current derived

  -- A plan writes nothing, for a reason, or the cells of the patch.
  pub plan_row-cases :
      (by_name : List (String × Field)) (timestamp : String) (plan : Plan)
      → plan_row host names request by_name timestamp target row ≡ returned plan
      → ((plan.operation ≡ Operation.noop) × (plan.fields ≡ Value.end))
        ⊎ ((noop_reason ≡ none)
            × (time : Value) × (plan.fields
                ≡ next_fields names target.kind derived current row time))
  unfolding plan_row plan_noop
  plan_row-cases by_name timestamp plan h = elim (Option-cases noop_reason) [
    | inr (reason, e) ↦
        let same = sym (rw (e, plan_row) at h) in inl (ap operation_in same, ap fields_in same)
    | inl e ↦
        let (time, f) =
          plan_update-fields host names by_name timestamp target row current
            (policy_of request.router_config (shared_names names target.kind) row) derived plan
            (rw (e, plan_row) at h) in
        inr (e, time, f)
  ]

  -- The plan for an archived row is to do nothing.
  pub archived_noop :
      (by_name : List (String × Field)) (timestamp : String) (plan : Plan)
      → normalize_text_value (cell row (shared_names names target.kind).status) ≡ "Archived"
      → plan_row host names request by_name timestamp target row ≡ returned plan
      → plan.operation ≡ Operation.noop
  unfolding current_status_of
  archived_noop by_name timestamp plan a h = elim (plan_row-cases by_name timestamp plan h) [
    | inl (o, e) ↦ o
    | inr (e, t, f) ↦
        let action = effective_action request.envelope request.service_result in
        let reason =
          ap (λ s. should_noop_for_status target.kind action (text_or_none s) derived) (sym a)
          ∙ e in
        elim (should_noop-archived target.kind action derived reason) [ ]
  ]

module _ (host : Host) (names : Names) (by_name : List (String × Field)) (target : Target) where
  abbrev pub row_of : Fields → Row
  row_of fields = record { record_id = target.record_id; fields = some fields }

  abbrev pub status_of : Fields → Option Value
  status_of fields = lookup (shared_names names target.kind).status fields

  -- The writebacks of the requests that `P` allows.
  pub data Run (P : Request → Type 0) : Fields → Fields → Type 0 where
    done : {fields : Fields} → Run P fields fields
    step :
        {fields last : Fields} (request : Request) (timestamp : String) (plan : Plan)
        → P request
        → plan_row host names request by_name timestamp target (row_of fields) ≡ returned plan
        → Run P (merge_fields plan.fields fields) last
        → Run P fields last

  -- The status that the planning reads of a row.
  current-status_of :
      (request : Request) (fields : Fields) (s : String)
      → normalize_text_value (status_of fields) ≡ s
      → current host names request target (row_of fields) ≡ text_or_none s
  unfolding current_status_of Value.get
  current-status_of request fields s a = ap text_or_none a

  -- Where the status gives a reason, nothing is written.
  noop_step :
      (request : Request) (timestamp : String) (plan : Plan) (fields : Fields)
      (status : Option String)
      → plan_row host names request by_name timestamp target (row_of fields) ≡ returned plan
      → current host names request target (row_of fields) ≡ status
      → should_noop_for_status target.kind
          (effective_action request.envelope request.service_result)
          status
          (derived host names request target (row_of fields))
        ≢ none
      → merge_fields plan.fields fields ≡ fields
  unfolding merge_fields
  noop_step request timestamp plan fields status h c reasoned =
      elim (plan_row-cases host names request target (row_of fields) by_name timestamp plan h) [
        | inl (o, e) ↦ ap (λ u. merge_fields u fields) e
        | inr (e, t, f) ↦ elim (reasoned (rw c at e)) [ ]
      ]

  -- An archived row is never touched again, whatever the requests.
  pub Run-archived :
      {P : Request → Type 0} {fields last : Fields}
      → normalize_text_value (status_of fields) ≡ "Archived"
      → Run P fields last
      → last ≡ fields
  Run-archived a Run.done = refl
  Run-archived {P} {fields} {last} a (Run.step request timestamp plan allowed h run) =
      let r =
        should_noop-archived target.kind (effective_action request.envelope request.service_result)
          (derived host names request target (row_of fields)) in
      let c = current-status_of request fields "Archived" a in
      let same = noop_step request timestamp plan fields (some "Archived") h c r in
      Run-archived (ap (λ f. normalize_text_value (status_of f)) same ∙ a) run ∙ same

  -- A finished row is not touched by any request but a review resolution.
  pub Run-finished :
      {P : Request → Type 0} {fields last : Fields}
      → ((request : Request)
          → P request
          → effective_action request.envelope request.service_result ≢ some "review_resolution")
      → normalize_text_value (status_of fields) ≡ finished target.kind
      → Run P fields last
      → last ≡ fields
  Run-finished others a Run.done = refl
  Run-finished {P} {fields} {last} others a (Run.step request timestamp plan allowed h run) =
      let action = effective_action request.envelope request.service_result in
      let r =
        should_noop-finished target.kind action (derived host names request target (row_of fields))
          (is_action-ne action "review_resolution" (others request allowed)) in
      let c =
        current-status_of request fields (finished target.kind) a
        ∙ text_or_none-finished target.kind in
      let same = noop_step request timestamp plan fields (some (finished target.kind)) h c r in
      Run-finished others (ap (λ f. normalize_text_value (status_of f)) same ∙ a) run ∙ same
