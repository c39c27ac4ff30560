-- ===== src/Feishu/Patch/Input.antt =====
-- adapters/feishu/src/task-bug-writeback.ts: what a patch is made from, and what is read from it.
use assistant_context_router.Prelude.{
  String, Bool, true, false, ◌||◌, Option, none, some, [], ◌∷◌, ◌==◌, ◌<|>◌, if◌then◌else◌,
  and_then, or_else,
}
use assistant_context_router.Text.{truthy, includes, ◌⧺◌}
use assistant_context_router.Value.{Value, pick_string}
use assistant_context_router.Host.{Host, ascii_lower}
use assistant_context_router.Types.Routing.{
  NormalizedEnvelope, ServiceResult, ServiceStatus, ServiceResultKind, WorkSurfaceActionName,
  WorkflowFamily, AcceptanceMode,
}
use assistant_context_router.Feishu.Texts.{
  Kind, ReviewDecision, FixResult, parameter, normalize_review_resolution_decision,
  normalize_bug_fix_result, truncate_text, build_execution_report,
}
use assistant_context_router.Feishu.Policy.{ResolvedPolicy}

pub record PatchInput : Type 0 where
  pub kind : Kind
  pub envelope : NormalizedEnvelope
  pub service_result : ServiceResult
  pub policy : ResolvedPolicy

abbrev pub action_text : WorkSurfaceActionName → String
action_text WorkSurfaceActionName.dispatch = "dispatch"
action_text WorkSurfaceActionName.review = "review"
action_text WorkSurfaceActionName.review_request = "review_request"
action_text WorkSurfaceActionName.review_resolution = "review_resolution"
action_text WorkSurfaceActionName.complete = "complete"
action_text WorkSurfaceActionName.blocked = "blocked"

-- `resolveEffectiveWritebackAction`
unfoldable pub effective_action : NormalizedEnvelope → ServiceResult → Option String
effective_action envelope result =
    and_then result.work_surface_action (λ a. some (action_text a)) <|> envelope.action_name

-- `action === name`
abbrev pub is_action : Option String → String → Bool
is_action none name = false
is_action (some a) name = a == name

abbrev pub is_review_workflow : Option WorkflowFamily → Bool
is_review_workflow none = false
is_review_workflow (some WorkflowFamily.review) = true
is_review_workflow (some WorkflowFamily.general) = false
is_review_workflow (some WorkflowFamily.dispatch) = false

abbrev pub is_rejected : Option ServiceResultKind → Bool
is_rejected none = false
is_rejected (some ServiceResultKind.rejected) = true
is_rejected (some ServiceResultKind.accepted) = false
is_rejected (some ServiceResultKind.queued) = false
is_rejected (some ServiceResultKind.needs_escalation) = false

abbrev pub is_queued : Option ServiceResultKind → Bool
is_queued none = false
is_queued (some ServiceResultKind.queued) = true
is_queued (some ServiceResultKind.accepted) = false
is_queued (some ServiceResultKind.rejected) = false
is_queued (some ServiceResultKind.needs_escalation) = false

abbrev pub is_escalation : ServiceStatus → Bool
is_escalation ServiceStatus.needs_escalation = true
is_escalation ServiceStatus.ok = false
is_escalation ServiceStatus.error = false

abbrev pub may_finalize : AcceptanceMode → Bool
may_finalize AcceptanceMode.agent_can_finalize = true
may_finalize AcceptanceMode.manual_acceptance = false

-- `effectiveActionName`
unfoldable pub input_action : PatchInput → Option String
unfolding effective_action
input_action input = effective_action input.envelope input.service_result

abbrev pub argument : PatchInput → String → Option Value
argument input key = parameter input.envelope.parameters key

abbrev pub text_value : Option String → Option Value
text_value text = and_then text (λ s. some (Value.str s))

-- `reviewResolutionDecision`
unfoldable pub decision_of : PatchInput → Option ReviewDecision
decision_of input = normalize_review_resolution_decision (argument input "decision")

-- `bugFixResult`
unfoldable pub fix_result_of : Host → PatchInput → Option FixResult
fix_result_of host input = elim (input.kind) [
  | Kind.bug ↦ normalize_bug_fix_result host (
      pick_string (
        argument input "fix_result"
        ∷ argument input "fixResult"
        ∷ argument input "bug_fix_result"
        ∷ argument input "bugFixResult"
        ∷ []))
  | Kind.task ↦ none
]

abbrev pub picked_summary : PatchInput → Option String
picked_summary input = pick_string (
    text_value input.service_result.summary
    ∷ argument input "comment"
    ∷ argument input "reason"
    ∷ text_value input.service_result.reply_payload
    ∷ text_value input.service_result.escalation_reason
    ∷ [])

-- `summary`
unfoldable pub summary_of : PatchInput → Option String
summary_of input = truncate_text 900 (picked_summary input)

abbrev pub picked_evidence : PatchInput → Option String
picked_evidence input =
    pick_string
      (argument input "evidence" ∷ argument input "verification" ∷ argument input "proof" ∷ [])

-- `executionReport`
unfoldable pub report_of : PatchInput → Option String
unfolding summary_of
report_of input =
    build_execution_report (summary_of input) (truncate_text 1200 (picked_evidence input))

-- `escalationReason`
abbrev pub escalation_of : PatchInput → Option String
escalation_of input = truncate_text 900 input.service_result.escalation_reason

-- `/review/i.test(text ?? "")`
abbrev pub says_review : Option String → Bool
says_review text = includes (ascii_lower (or_else text "")) "review"

-- `reviewLike`
unfoldable pub review_like : PatchInput → Bool
unfolding input_action summary_of
review_like input =
    is_action (input_action input) "review"
    || is_action (input_action input) "review_request"
    || is_review_workflow input.envelope.workflow
    || says_review (escalation_of input)
    || says_review (summary_of input)

-- `truncateText(summary ? prefix + summary : otherwise) ?? otherwise`
abbrev pub with_summary : PatchInput → String → String → String
with_summary input prefix otherwise =
    or_else
      (truncate_text 900 (
        some (
          if truthy (summary_of input) then prefix ⧺ or_else (summary_of input) "" else otherwise)))
      otherwise
