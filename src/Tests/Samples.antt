-- ===== src/Tests/Samples.antt =====
-- Sample hosts, messages and records.
use Prim.Native.Nat.{compare}
use assistant_context_router.Prelude.{
  ℕ, zero, suc, String, ◌≡◌, refl, ap, none, some, false, [], ◌∷◌, arith,
}
use assistant_context_router.Host.{Host, LowersAscii, ReadsDates, Collates, ascii_lower}
use assistant_context_router.Types.Routing.{
  NormalizedEnvelope, SourceType, ChannelType, ActionRouteConfig, ServiceResult, ServiceStatus,
  WorkSurfaceActionName,
}
use assistant_context_router.Types.Signals.{SignalKind, SignalPromotionSource, EscalationSeed}
use assistant_context_router.Routing.Decision.{RouteInput}

-- Times are printed as so many marks.
abbrev pub marks : ℕ → String
marks zero = String.[]
marks (suc n) = String.◌∷◌ "I" (marks n)

abbrev pub count_marks : String → ℕ
count_marks String.[] = zero
count_marks (String.◌∷◌ c s) = suc (count_marks s)

-- A host whose alphabet is ASCII and that collates by length.
abbrev pub sample_host : Host
sample_host = record {
  to_lower = ascii_lower;
  locale_compare = λ s t. compare (count_marks s) (count_marks t);
  to_iso_string = marks;
  get_time = λ s. some (count_marks s);
  number_text = marks;
  number_of = λ s. s;
}

pub sample_host-LowersAscii : LowersAscii sample_host
sample_host-LowersAscii s h = refl

count-marks : (t : ℕ) → count_marks (marks t) ≡ t
count-marks zero = refl
count-marks (suc t) = ap suc (count-marks t)

pub sample_host-ReadsDates : ReadsDates sample_host
sample_host-ReadsDates t = ap some (count-marks t)

pub sample_host-Collates : Collates sample_host
sample_host-Collates = record { total = λ s t h. ground arith; trans = λ s t u h k. ground arith }

-- An automation message that names an action and no project.
abbrev pub lost_envelope : NormalizedEnvelope
lost_envelope = record {
  source_type = SourceType.automation;
  channel_type = ChannelType.feishu;
  project_ref = none;
  resolved_project_id = none;
  action_name = some "dispatch";
  parameters = none;
  reply_target = none;
  trace_id = some "trace_1";
  workflow = none;
  raw_message_ref = none;
  text = none;
}

abbrev pub named_envelope : NormalizedEnvelope
named_envelope = record lost_envelope { resolved_project_id = some "acr" }

abbrev pub lost_message : RouteInput
lost_message = record {
  envelope = lost_envelope;
  session_key = some "agent:main:main";
  session_state = none;
  available_service_actions = some ("dispatch" ∷ []);
  action_config = none;
}

abbrev pub named_message : RouteInput
named_message = record lost_message { envelope = named_envelope }

-- A route that does not ask for a project.
abbrev pub lane_config : ActionRouteConfig
lane_config = record { target_kind = none; workflow = none; requires_resolved_project = some false }

abbrev pub sample_result : ServiceResult
sample_result = record {
  status = ServiceStatus.ok;
  result_kind = none;
  work_surface_action = some WorkSurfaceActionName.complete;
  summary = some "done";
  reply_payload = none;
  needs_escalation = false;
  escalation_reason = none;
  run_id = none;
  queue_ref = none;
  artifact_ref = none;
  trace_patch = none;
}

abbrev pub sample_seed : EscalationSeed
sample_seed = record {
  canonical_session_key = "agent:main:main";
  project_id = "acr";
  signal_kind = SignalKind.blocked;
  source = SignalPromotionSource.service_result;
  reason = "blocked by approval";
  summary = none;
  trace_id = none;
  action_name = some "dispatch";
  workflow = none;
  run_id = none;
  queue_ref = none;
  artifact_ref = none;
  resolution = none;
}
