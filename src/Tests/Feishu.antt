-- ===== src/Tests/Feishu.antt =====
-- Writebacks to sample rows.
use assistant_context_router.Prelude.{
  Bool, false, Option, none, some, [], ◌≡◌, ◌≢◌, refl, ◌⊎◌, ◌↔◌, ◌==◌, ap,
}
use assistant_context_router.Value
use assistant_context_router.Value.{Value, Fields, lookup, merge_fields}
use assistant_context_router.Types.Routing.{
  AcceptanceMode, CompletionNotifyMode, StartMode, RouterConfig, WorkSurfaceActionName,
}
use assistant_context_router.Feishu.Attempt.{thrown, returned}
use assistant_context_router.Feishu.Texts.{
  Kind, Target, normalize_text_value, normalize_review_resolution_decision, truncate_text,
  build_execution_report, normalize_acceptance_override, normalize_completion_notify_override,
  inherit, mode,
}
use assistant_context_router.Feishu.Names.{default_names}
use assistant_context_router.Feishu.Metadata.{
  validate_select_coverage, uncovered, is_covered, field_named,
}
use assistant_context_router.Feishu.Policy.{PolicySource, ResolvedPolicy, resolve_task_bug_policy}
use assistant_context_router.Feishu.Metadata.Checks.{uncovered_error}
use assistant_context_router.Feishu.Patch.{
  effective_action, should_noop_for_status, derive_writeback_patch, report_of, input_action,
  asks_review, decision_of, fix_result_of, review_like, summary_of, went_wrong,
}
use assistant_context_router.Feishu.Writeback.{
  Plan, Request, Operation, plan_row, current_status_of, to_feishu_datetime, next_fields, policy_of,
  plan_noop, plan_update, progress_cells, report_cells, update_plan, patch_input,
}
use assistant_context_router.Feishu.Patch.Finality.{
  IsAccepted, IsCompleted, derive_writeback_patch-finished,
}
use assistant_context_router.Feishu.Writeback.Effect.{planned_cells, IsFinishing, plan_row-accepted}
use assistant_context_router.Host.{ascii_lower}
use assistant_context_router.Text.{
  trim, trim_start, trim_end, is_space, includes, starts_with, join, slice_to, text_length,
}
use assistant_context_router.Feishu.Writeback.Lifecycle.{Run, row_of, Run-archived, Run-finished}
use assistant_context_router.Feishu.Writeback.Acceptance.{
  Accepts, IsManual, HasStatus, Run-IsManual,
}
use assistant_context_router.Feishu.Writeback.Started.{started_of, Run-started}
use assistant_context_router.Tests.Samples.{sample_host, lost_envelope, sample_result}

abbrev pub plain_config : RouterConfig
plain_config = record {
  actions = none;
  service_binding = none;
  project_session_binding = none;
  task_bug_policy = none;
}

abbrev pub task_target : Target
task_target = record { kind = Kind.task; record_id = "rec1" }

-- A task in work that a person must accept.
abbrev pub doing : Fields
doing =
    Value.field "状态" (Value.str "Doing")
      (Value.field "ACR验收模式" (Value.str "人工验收") (Value.field "ACR开始执行时间" (Value.num "I") Value.end))

abbrev pub completion : Request
completion = record {
  envelope = lost_envelope;
  service_result = sample_result;
  router_config = plain_config;
}

abbrev manual_policy : ResolvedPolicy
manual_policy = record {
  acceptance_mode = AcceptanceMode.manual_acceptance;
  completion_notify_mode = CompletionNotifyMode.no_dm_on_completion_boundary;
  start_mode = StartMode.manual_only;
  acceptance_mode_source = PolicySource.row_override;
  completion_notify_mode_source = PolicySource.builtin_default;
  start_mode_source = PolicySource.builtin_default;
  row_acceptance_mode = mode AcceptanceMode.manual_acceptance;
  row_completion_notify_mode = inherit;
}

abbrev pub built_in_policy : ResolvedPolicy
built_in_policy = record manual_policy {
  acceptance_mode_source = PolicySource.builtin_default;
  row_acceptance_mode = inherit;
}

abbrev review_cells : Fields
review_cells = Value.field "current_step" (Value.str "REVIEW_WAIT") (
    Value.field "step_result" (Value.str "need_review") (
      Value.field "next_action" (Value.str "等待人工验收: done") (
        Value.field "last_event_at" (Value.num "II") (
          Value.field "状态" (Value.str "Reviewing")
            (Value.field "执行摘要" (Value.str "done") Value.end)))))

-- The completion of a task that a person must accept puts it to review.
abbrev pub review_plan : Plan
review_plan = record {
  kind = Kind.task;
  record_id = "rec1";
  operation = Operation.updated;
  reason = "completion_boundary";
  status_before = some "Doing";
  fields = review_cells;
  policy = manual_policy;
}

completed :
    plan_row sample_host default_names completion [] "II" task_target
      (row_of sample_host default_names [] task_target doing)
    ≡ returned review_plan
unfolding plan_row should_noop_for_status trim current_status_of normalize_text_value Value.get
    effective_action to_feishu_datetime validate_select_coverage next_fields derive_writeback_patch
    policy_of resolve_task_bug_policy normalize_acceptance_override report_of build_execution_report
    Value.pick_string uncovered input_action asks_review decision_of fix_result_of review_like
    summary_of went_wrong normalize_completion_notify_override normalize_review_resolution_decision
    truncate_text plan_noop plan_update progress_cells report_cells update_plan ascii_lower includes
    is_space join slice_to starts_with text_length trim_end trim_start Value.as_string lookup
    Value.plain_text Value.set_field is_covered field_named
completed = refl

abbrev IsCompletion : Request → Type 0
IsCompletion request = request ≡ completion

not_accepted :
    (request : Request)
    → IsCompletion request
    → (request.router_config ≡ plain_config) × ¬ Accepts request
unfolding effective_action
not_accepted request e = rw e (refl, λ a. let r = a.0 in cc)

reviewed :
    Run sample_host default_names [] task_target IsCompletion doing
      (merge_fields review_cells doing)
reviewed = Run.step completion "II" review_plan refl completed Run.done

doing-IsManual : IsManual sample_host default_names [] task_target plain_config doing
unfolding policy_of resolve_task_bug_policy normalize_acceptance_override normalize_text_value
    Value.get lookup trim trim_start trim_end is_space
doing-IsManual = refl

doing-unfinished : ¬ HasStatus sample_host default_names [] task_target plain_config "Done" doing
unfolding lookup
doing-unfinished h = let e = ap text_in h in cc
  where
    text_in : Option Value → Bool
    text_in (some (Value.str t)) = t == "Doing"
    text_in _ = false

Run-IsManual_example :
    IsManual sample_host default_names [] task_target plain_config (merge_fields review_cells doing)
    × ¬ HasStatus sample_host default_names [] task_target plain_config "Done"
        (merge_fields review_cells doing)
Run-IsManual_example =
    Run-IsManual sample_host default_names [] task_target plain_config refl refl refl not_accepted
      doing-IsManual doing-unfinished reviewed

Run-started_example :
    started_of sample_host default_names [] task_target (merge_fields review_cells doing)
    ≡ started_of sample_host default_names [] task_target doing
unfolding lookup normalize_text_value
Run-started_example = Run-started sample_host default_names [] task_target refl refl reviewed

-- A reviewer accepts the task.
abbrev pub acceptance : Request
acceptance = record {
  envelope = record lost_envelope {
    parameters = some (
        Value.field "task_record_id" (Value.str "rec1")
          (Value.field "decision" (Value.str "通过") Value.end));
  };
  service_result = record sample_result {
    work_surface_action = some WorkSurfaceActionName.review_resolution;
  };
  router_config = plain_config;
}

acceptance-Accepts : Accepts acceptance
unfolding effective_action normalize_review_resolution_decision normalize_text_value Value.get
    lookup trim trim_start trim_end is_space
acceptance-Accepts = (refl, refl)

plan_row-accepted_example :
    ((uncovered [] (planned_cells sample_host default_names [] "II" task_target acceptance doing 2)
        ≡ [])
      × (plan : Plan) × (plan_row sample_host default_names acceptance [] "II" task_target
            (row_of sample_host default_names [] task_target doing)
          ≡ returned plan)
      × IsFinishing sample_host default_names [] "II" task_target acceptance doing plan)
    ⊎ ((uncovered []
            (planned_cells sample_host default_names [] "II" task_target acceptance doing 2)
          ≢ [])
        × (plan_row sample_host default_names acceptance [] "II" task_target
              (row_of sample_host default_names [] task_target doing)
            ≡ thrown (
                uncovered_error Kind.task [] (
                  planned_cells sample_host default_names [] "II" task_target acceptance doing 2))))
unfolding normalize_text_value lookup trim trim_start trim_end is_space
plan_row-accepted_example =
    plan_row-accepted sample_host default_names [] "II" task_target acceptance doing 2
      acceptance-Accepts refl refl refl

derive_writeback_patch-finished_example :
    ((derive_writeback_patch sample_host (
        patch_input acceptance default_names Kind.task
          (row_of sample_host default_names [] task_target doing))).status
      ≡ some "Done")
    ↔ (IsAccepted (
          patch_input acceptance default_names Kind.task
            (row_of sample_host default_names [] task_target doing))
        ⊎ IsCompleted sample_host (
            patch_input acceptance default_names Kind.task
              (row_of sample_host default_names [] task_target doing)))
derive_writeback_patch-finished_example = derive_writeback_patch-finished sample_host (
    patch_input acceptance default_names Kind.task
      (row_of sample_host default_names [] task_target doing))

abbrev pub archived : Fields
archived = Value.field "状态" (Value.str "Archived") Value.end

abbrev archived_plan : Plan
archived_plan = record review_plan {
  operation = Operation.noop;
  reason = "terminal_status:Archived";
  status_before = some "Archived";
  fields = Value.end;
  policy = built_in_policy;
}

held :
    plan_row sample_host default_names acceptance [] "II" task_target
      (row_of sample_host default_names [] task_target archived)
    ≡ returned archived_plan
unfolding plan_row should_noop_for_status trim trim_start trim_end is_space current_status_of
    normalize_text_value Value.get effective_action policy_of resolve_task_bug_policy
    normalize_acceptance_override normalize_completion_notify_override plan_noop lookup
    derive_writeback_patch
held = refl

kept : Run sample_host default_names [] task_target (λ r. r ≡ acceptance) archived archived
unfolding merge_fields
kept = Run.step acceptance "II" archived_plan refl held Run.done

Run-archived_example : archived ≡ archived
unfolding normalize_text_value lookup trim trim_start trim_end is_space
Run-archived_example = Run-archived sample_host default_names [] task_target refl kept

abbrev finished_task : Fields
finished_task = Value.field "状态" (Value.str "Done") Value.end

abbrev finished_plan : Plan
finished_plan = record archived_plan {
  reason = "terminal_status:Done";
  status_before = some "Done";
}

finished_held :
    plan_row sample_host default_names completion [] "II" task_target
      (row_of sample_host default_names [] task_target finished_task)
    ≡ returned finished_plan
unfolding plan_row should_noop_for_status trim trim_start trim_end is_space current_status_of
    normalize_text_value Value.get effective_action policy_of resolve_task_bug_policy
    normalize_acceptance_override normalize_completion_notify_override plan_noop lookup
    derive_writeback_patch
finished_held = refl

finished_kept :
    Run sample_host default_names [] task_target IsCompletion finished_task finished_task
unfolding merge_fields
finished_kept = Run.step completion "II" finished_plan refl finished_held Run.done

unresolved :
    (request : Request)
    → IsCompletion request
    → effective_action request.envelope request.service_result ≢ some "review_resolution"
unfolding effective_action
unresolved request e = rw e (λ a. cc)

Run-finished_example : finished_task ≡ finished_task
unfolding normalize_text_value lookup trim trim_start trim_end is_space
Run-finished_example =
    Run-finished sample_host default_names [] task_target unresolved refl finished_kept
