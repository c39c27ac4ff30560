-- ===== src/Routing/Projection.antt =====
-- routing/work-surface-projection.ts: the snapshot of a signal on the work surface. Its file is
-- outside the model; `updated_at` is the text of the clock.
use assistant_context_router.Prelude.{String, Option, none, some, and_then, or_else, ◌<|>◌}
use assistant_context_router.Text.{◌⧺◌}
use assistant_context_router.Types.Signals.{
  SignalKind, WorkSurfaceStatus, WorkSurfaceProjectionSnapshot,
}
use assistant_context_router.Routing.SignalPromotion.{SignalInput}

unfoldable pub derive_work_surface_status : SignalKind → WorkSurfaceStatus
derive_work_surface_status SignalKind.blocked = WorkSurfaceStatus.blocked
derive_work_surface_status SignalKind.review_request = WorkSurfaceStatus.in_review
derive_work_surface_status SignalKind.high_signal_completion = WorkSurfaceStatus.completed
derive_work_surface_status SignalKind.service_error = WorkSurfaceStatus.failed
derive_work_surface_status SignalKind.none = WorkSurfaceStatus.none

-- What the headline says before the action.
abbrev headline_word : SignalKind → String
headline_word SignalKind.blocked = "Blocked: "
headline_word SignalKind.review_request = "Review requested: "
headline_word SignalKind.high_signal_completion = "Completed: "
headline_word SignalKind.service_error = "Service error: "
headline_word SignalKind.none = "Activity: "

unfoldable pub derive_headline : SignalKind → Option String → String
derive_headline kind action_name = headline_word kind ⧺ or_else action_name "workflow"

-- `deriveSummary`: what the service says, or else why nothing was delivered or routed.
unfoldable pub derive_summary : SignalInput → Option String
derive_summary input =
    and_then input.service_result (λ r. r.summary)
    <|> and_then input.service_result (λ r. r.reply_payload)
    <|> and_then input.delivery_result (λ r. r.error_reason)
    <|> input.decision.escalation_reason
    <|> input.decision.safe_fail_reason

-- The snapshot of a signal that is not silent.
unfoldable pub snapshot_of :
    String → String → SignalKind → SignalInput → WorkSurfaceProjectionSnapshot
unfolding derive_work_surface_status derive_headline derive_summary
snapshot_of updated_at project_id kind input = record {
  project_id = project_id;
  updated_at = updated_at;
  signal_kind = kind;
  surface_status = derive_work_surface_status kind;
  headline = derive_headline kind input.envelope.action_name;
  summary = derive_summary input;
  trace_id = input.envelope.trace_id;
  action_name = input.envelope.action_name;
  workflow = input.envelope.workflow;
  run_id = and_then input.service_result (λ r. r.run_id);
  queue_ref = and_then input.service_result (λ r. r.queue_ref);
  artifact_ref = and_then input.service_result (λ r. r.artifact_ref);
}

unfoldable pub build_work_surface_projection_snapshot :
    String → String → SignalKind → SignalInput → Option WorkSurfaceProjectionSnapshot
unfolding snapshot_of
build_work_surface_projection_snapshot updated_at project_id SignalKind.none input = none
build_work_surface_projection_snapshot updated_at project_id SignalKind.blocked input =
    some (snapshot_of updated_at project_id SignalKind.blocked input)
build_work_surface_projection_snapshot updated_at project_id SignalKind.review_request input =
    some (snapshot_of updated_at project_id SignalKind.review_request input)
build_work_surface_projection_snapshot updated_at project_id SignalKind.high_signal_completion
      input =
    some (snapshot_of updated_at project_id SignalKind.high_signal_completion input)
build_work_surface_projection_snapshot updated_at project_id SignalKind.service_error input =
    some (snapshot_of updated_at project_id SignalKind.service_error input)
