-- ===== src/Feishu/Writeback/Plans.antt =====
-- adapters/feishu/src/task-bug-writeback.ts: the plan of a writeback for a row that has been read.
use assistant_context_router.Prelude.{
  ℕ, String, Bool, ◌&&◌, Option, none, some, List, ◌==◌, ◌<|>◌, if◌then◌else◌, and_then,
}
use assistant_context_router.Text.{is_empty, ◌⧺◌}
use assistant_context_router.Value
use assistant_context_router.Value.{Value, Fields, set_field}
use assistant_context_router.Host.{Host}
use assistant_context_router.Types.Routing.{NormalizedEnvelope, ServiceResult, RouterConfig}
use assistant_context_router.Feishu.Attempt.{Attempt, returned, ◌>>=◌, ◌>>◌, expect}
use assistant_context_router.Feishu.Texts.{
  Kind, FixResult, fix_result_text, Target, normalize_text_value,
}
use assistant_context_router.Feishu.Policy.{ResolvedPolicy, resolve_task_bug_policy}
use assistant_context_router.Feishu.Patch.{
  Phase, WritebackPatch, PatchInput, effective_action, derive_writeback_patch,
  should_noop_for_status,
}
use assistant_context_router.Feishu.Names.{SharedNames, Names, shared_names}
use assistant_context_router.Feishu.Metadata.{Field, Row, validate_select_coverage, cell}

pub data Operation : Type 0 where
  updated noop : Operation

pub record Plan : Type 0 where
  pub kind : Kind
  pub record_id : String
  pub operation : Operation
  pub reason : String
  pub status_before : Option String
  pub fields : Fields
  pub policy : ResolvedPolicy

pub record ApplyResult : Type 0 where
  pub kind : Kind
  pub record_id : String
  pub operation : Operation
  pub applied_record_id : Option String
  pub fields : Fields

-- What a run is given.
pub record Request : Type 0 where
  pub envelope : NormalizedEnvelope
  pub service_result : ServiceResult
  pub router_config : RouterConfig

abbrev pub phase_text : Phase → String
phase_text Phase.in_progress = "in_progress"
phase_text Phase.review_boundary = "review_boundary"
phase_text Phase.completion_boundary = "completion_boundary"
phase_text Phase.resolution_boundary = "resolution_boundary"
phase_text Phase.error = "error"

unfoldable pub to_feishu_datetime : Host → String → Attempt ℕ
to_feishu_datetime host text =
    expect ("invalid-feishu-task-bug-datetime:" ⧺ text) (host.get_time text)

-- `text || null`
abbrev pub text_or_none : String → Option String
text_or_none text = if is_empty text then none else some text

-- `patch.status && patch.status !== currentStatus`
abbrev pub changed_status : Option String → Option String → Option String
changed_status none current = none
changed_status (some s) none = text_or_none s
changed_status (some s) (some current) = if s == current then none else text_or_none s

-- `if (value) fields[name] = value`
abbrev pub set_if : Option String → String → Fields → Fields
set_if none name fields = fields
set_if (some s) name fields = if is_empty s then fields else set_field name (Value.str s) fields

unfoldable pub progress_cells : SharedNames → WritebackPatch → Value → Fields
progress_cells n p time = set_field n.last_event_at time (
    set_field n.next_action (Value.str p.next_action) (
      set_field n.step_result (Value.str p.step_result)
        (set_field n.current_step (Value.str p.current_step) Value.end)))

-- `patch.set_started_at_if_empty && !normalizeTextValue(startedAtValue)`
abbrev pub starts : WritebackPatch → Option Value → Bool
starts p started_at = p.set_started_at_if_empty && is_empty (normalize_text_value started_at)

abbrev pub fix_text : Option FixResult → Option String
fix_text result = and_then result (λ r. some (fix_result_text r))

unfoldable pub report_cells : Names → Kind → WritebackPatch → Fields → Fields
report_cells names Kind.task p fields =
    set_if (p.execution_report <|> p.summary) names.task.execution_summary fields
report_cells names Kind.bug p fields =
    set_if (fix_text p.bug_fix_result) names.bug.fix_result
      (set_if (p.execution_report <|> p.summary) names.bug.fix_method fields)

-- `nextFields`
unfoldable pub next_fields : Names → Kind → WritebackPatch → Option String → Row → Value → Fields
unfolding progress_cells report_cells
next_fields names kind p current_status row time =
    let n = shared_names names kind in
    let with_status =
      set_if (changed_status p.status current_status) n.status (progress_cells n p time) in
    let with_start =
      if starts p (cell row n.started_at)
      then set_field n.started_at time with_status
      else with_status in
    report_cells names kind p with_start

unfoldable pub current_status_of : SharedNames → Row → Option String
current_status_of n row = text_or_none (normalize_text_value (cell row n.status))

unfoldable pub policy_of : RouterConfig → SharedNames → Row → ResolvedPolicy
policy_of config n row =
    resolve_task_bug_policy config (cell row n.acceptance_mode) (cell row n.completion_notify_mode)

abbrev pub patch_input : Request → Names → Kind → Row → PatchInput
patch_input request names kind row = record {
  kind = kind;
  envelope = request.envelope;
  service_result = request.service_result;
  policy = policy_of request.router_config (shared_names names kind) row;
}

abbrev pub plan_with : Operation → String → Fields → Option String → ResolvedPolicy → Target → Plan
plan_with operation reason fields current_status policy target = record {
  kind = target.kind;
  record_id = target.record_id;
  operation = operation;
  reason = reason;
  status_before = current_status;
  fields = fields;
  policy = policy;
}

unfoldable pub plan_noop : Target → Option String → ResolvedPolicy → String → Plan
plan_noop target current_status policy reason =
    plan_with Operation.noop reason Value.end current_status policy target

unfoldable pub update_plan :
    Host → Names → Target → Row → Option String → ResolvedPolicy → WritebackPatch → ℕ → Plan
update_plan host names target row current_status policy p time =
    let fields =
      next_fields names target.kind p current_status row (Value.num (host.number_text time)) in
    plan_with Operation.updated (phase_text p.phase) fields current_status policy target

-- A plan whose values the columns take.
abbrev pub checked_plan : List (String × Field) → Plan → Attempt Plan
checked_plan by_name plan = validate_select_coverage plan.kind by_name plan.fields >> returned plan

unfoldable pub plan_update :
    Host
    → Names
    → List (String × Field)
    → String
    → Target
    → Row
    → Option String
    → ResolvedPolicy
    → WritebackPatch
    → Attempt Plan
unfolding update_plan
plan_update host names by_name timestamp target row current_status policy p = do
  time ← to_feishu_datetime host timestamp
  checked_plan by_name (update_plan host names target row current_status policy p time)

-- The body of the loop over targets, once the row is read.
unfoldable pub plan_row :
    Host → Names → Request → List (String × Field) → String → Target → Row → Attempt Plan
unfolding plan_noop plan_update
plan_row host names request by_name timestamp target row =
    let n = shared_names names target.kind in
    let current_status = current_status_of n row in
    let policy = policy_of request.router_config n row in
    let p = derive_writeback_patch host (patch_input request names target.kind row) in
    let action = effective_action request.envelope request.service_result in
    elim (should_noop_for_status target.kind action current_status p) [
      | some reason ↦ returned (plan_noop target current_status policy reason)
      | none ↦ plan_update host names by_name timestamp target row current_status policy p
    ]
