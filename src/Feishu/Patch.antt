-- ===== src/Feishu/Patch.antt =====
-- adapters/feishu/src/task-bug-writeback.ts: what a service result does to a row, and when the row's
-- status forbids it.
pub mod Input
pub mod Finality
pub mod Noop
pub mod Report
unfoldable pub use Input.*
use Prim.Native.String
use assistant_context_router.Prelude.{
  String, Bool, true, false, not, ◌&&◌, ◌||◌, Option, none, some, [], ◌∷◌, ◌==◌, ◌<|>◌,
  if◌then◌else◌, and_then, or_else,
}
use assistant_context_router.Text.{is_empty, truthy, trim, includes, ◌⧺◌}
use assistant_context_router.Value
use assistant_context_router.Value.{Value, Fields, pick_string}
use assistant_context_router.Host.{Host, ascii_lower}
use assistant_context_router.Types.Routing.{
  NormalizedEnvelope, ServiceResult, ServiceStatus, ServiceResultKind, WorkSurfaceActionName,
  WorkflowFamily, AcceptanceMode,
}
use assistant_context_router.Routing.SignalPromotion.{is_error}
use assistant_context_router.Feishu.Texts.{
  Kind, ReviewDecision, FixResult, one_of, parameter, normalize_review_resolution_decision,
  normalize_bug_fix_result, truncate_text, build_execution_report,
}
use assistant_context_router.Feishu.Policy.{ResolvedPolicy}

pub data Phase : Type 0 where
  in_progress review_boundary completion_boundary resolution_boundary error : Phase

pub record WritebackPatch : Type 0 where
  pub phase : Phase
  pub status : Option String
  pub current_step : String
  pub step_result : String
  pub next_action : String
  pub summary : Option String
  pub execution_report : Option String
  pub bug_fix_result : Option FixResult
  pub set_started_at_if_empty : Bool

-- A patch with the texts that all have.
patch : PatchInput → Phase → Option String → String → String → String → WritebackPatch
patch input phase status step result next = record {
  phase = phase;
  status = status;
  current_step = step;
  step_result = result;
  next_action = next;
  summary = summary_of input;
  execution_report = report_of input;
  bug_fix_result = none;
  set_started_at_if_empty = false;
}

-- The status of a finished row.
abbrev pub finished : Kind → String
finished Kind.task = "Done"
finished Kind.bug = "Fixed"

abbrev pub started : Kind → String
started Kind.task = "Doing"
started Kind.bug = "Fixing"

failed_patch : PatchInput → String → WritebackPatch
unfolding patch
failed_patch input next = patch input Phase.error none "REPORT" "failed" next

resolution_patch : PatchInput → Option ReviewDecision → WritebackPatch
unfolding patch failed_patch
resolution_patch input (some ReviewDecision.accepted) =
    patch input Phase.resolution_boundary (some (finished input.kind)) "COMPLETE" "accepted"
      (with_summary input "已验收通过: " "已验收通过")
resolution_patch input (some ReviewDecision.rejected) =
    patch input Phase.resolution_boundary (some "Todo") "REPLAN" "rejected"
      (with_summary input "根据验收反馈重新处理: " "根据验收反馈重新处理")
resolution_patch input none = failed_patch input "缺少有效的 review_resolution decision"

review_patch : PatchInput → Bool → WritebackPatch
unfolding patch
review_patch input true =
    patch input Phase.review_boundary (some "Reviewing") "REVIEW_WAIT" "need_review"
      (with_summary input "等待Review: " "等待Review")
review_patch input false =
    patch input Phase.review_boundary (some "Reviewing") "REVIEW_WAIT" "blocked" (
      or_else
        (truncate_text 900
          (some ("NEED_DECISION: " ⧺ or_else (summary_of input <|> escalation_of input) "等待人工决策")))
        "NEED_DECISION: 等待人工决策")

complete_patch : Host → PatchInput → Bool → WritebackPatch
unfolding patch
complete_patch host input true =
    record (patch input Phase.completion_boundary (some (finished input.kind)) "COMPLETE" "accepted"
      (with_summary input "已完成: " "已完成")) { bug_fix_result = fix_result_of host input }
complete_patch host input false =
    record (patch input Phase.completion_boundary (some "Reviewing") "REVIEW_WAIT" "need_review"
      (with_summary input "等待人工验收: " "等待人工验收")) { bug_fix_result = fix_result_of host input }

-- `input.kind === "bug" && !bugFixResult`
abbrev lacks_fix_result : Kind → Option FixResult → Bool
lacks_fix_result Kind.task result = false
lacks_fix_result Kind.bug none = true
lacks_fix_result Kind.bug (some r) = false

progress_patch : PatchInput → WritebackPatch
unfolding patch
progress_patch input =
    record (patch input Phase.in_progress (some (started input.kind)) "EXECUTE" "in_progress"
      (if is_queued input.service_result.result_kind then "等待执行队列出列" else "继续执行当前事项")) {
        set_started_at_if_empty = true;
      }

-- The service failed or was rejected.
unfoldable pub went_wrong : ServiceResult → Bool
went_wrong result = is_error result.status || is_rejected result.result_kind

-- The result asks for a review or a decision.
unfoldable pub asks_review : PatchInput → Bool
unfolding input_action
asks_review input =
    is_action (input_action input) "review"
    || is_action (input_action input) "review_request"
    || is_action (input_action input) "blocked"
    || is_review_workflow input.envelope.workflow
    || input.service_result.needs_escalation
    || is_escalation input.service_result.status

unfoldable pub derive_writeback_patch : Host → PatchInput → WritebackPatch
unfolding resolution_patch failed_patch went_wrong review_patch asks_review complete_patch
    progress_patch decision_of fix_result_of review_like
derive_writeback_patch host input =
    if is_action (input_action input) "review_resolution"
    then resolution_patch input (decision_of input)
    else if went_wrong input.service_result
    then failed_patch input (
        or_else
          (truncate_text 900 (some (or_else (summary_of input <|> escalation_of input) "排查失败原因")))
          "排查失败原因")
    else if asks_review input
    then review_patch input (review_like input)
    else if is_action (input_action input) "complete"
    then (if lacks_fix_result input.kind (fix_result_of host input)
        then failed_patch input "缺少 Bug 修复结果 fix_result: 请明确 Fixed / Won't fix / Can't rep"
        else complete_patch host input (may_finalize input.policy.acceptance_mode))
    else progress_patch input

abbrev is_in_progress : Phase → Bool
is_in_progress Phase.in_progress = true
is_in_progress Phase.review_boundary = false
is_in_progress Phase.completion_boundary = false
is_in_progress Phase.resolution_boundary = false
is_in_progress Phase.error = false

-- `terminalStatuses.has(status)`
abbrev pub is_terminal : Kind → String → Bool
is_terminal kind status = one_of (finished kind ∷ "Archived" ∷ []) status

-- The reason why nothing is written, if there is one.
unfoldable pub should_noop_for_status :
    Kind → Option String → Option String → WritebackPatch → Option String
should_noop_for_status kind action_name current_status p =
    let status = trim (or_else current_status "") in
    if is_empty status
    then none
    else if is_action action_name "review_resolution"
    then (if "Archived" == status then some ("terminal_status:" ⧺ status) else none)
    else if is_terminal kind status
    then some ("terminal_status:" ⧺ status)
    else if ("Reviewing" == status) && is_in_progress p.phase
    then some "status_regression:Reviewing->in_progress"
    else none
