-- ===== src/Routing/SignalRecords.antt =====
-- routing/signal-records.ts: ids, notification records and escalation seeds.
pub mod Ids
use assistant_context_router.Prelude.{
  ℕ, String, Bool, true, false, not, ◌||◌, nat_eq, Option, none, some, List, [], ◌∷◌, ◌<|>◌,
  if◌then◌else◌, and_then, or_else, is_some,
}
use assistant_context_router.Text.{is_empty, trim, join, replace_runs, is_alnum, ◌⧺◌}
use assistant_context_router.Host.{Host}
use assistant_context_router.Types.Routing.{
  RouteDecision, NormalizedEnvelope, ServiceResult, DeliveryResult,
}
use assistant_context_router.Types.Signals.{
  SignalKind, SignalPromotionSource, BusinessNotificationRecord, EscalationSeed,
}
use assistant_context_router.Routing.SignalPromotion.{SignalInput, derive_signal_reason}

-- The class of `/[^a-zA-Z0-9._|:-]+/g`.
unfoldable pub id_char : ℕ → Bool
unfolding is_alnum
id_char c =
    is_alnum c || nat_eq c b'.' || nat_eq c b'_' || nat_eq c b'|' || nat_eq c b':' || nat_eq c b'-'

-- The parts, trimmed, without those that are null or blank.
unfoldable pub id_parts : List (Option String) → List String
id_parts [] = []
id_parts (none ∷ rest) = id_parts rest
id_parts (some s ∷ rest) =
    let more = id_parts rest in if is_empty (trim s) then more else trim s ∷ more

-- `base || "record"`
abbrev or_record : String → String
or_record s = if is_empty s then "record" else s

unfoldable pub stable_id : String → List (Option String) → String
unfolding id_parts id_char replace_runs
stable_id prefix parts =
    prefix ⧺ ":" ⧺ or_record (replace_runs id_char false (join "|" (id_parts parts)))

-- The text of a signal kind.
abbrev pub signal_text : SignalKind → String
signal_text SignalKind.none = "none"
signal_text SignalKind.blocked = "blocked"
signal_text SignalKind.review_request = "review_request"
signal_text SignalKind.high_signal_completion = "high_signal_completion"
signal_text SignalKind.service_error = "service_error"

unfoldable pub derive_signal_promotion_source :
    Option ServiceResult → Option DeliveryResult → SignalPromotionSource
derive_signal_promotion_source service (some d) = SignalPromotionSource.delivery_result
derive_signal_promotion_source (some s) none = SignalPromotionSource.service_result
derive_signal_promotion_source none none = SignalPromotionSource.route_decision

-- `deriveSignalReason(input) || input.decision.route_reason`
abbrev reason_or_route : Host → SignalInput → String
reason_or_route host input =
    let reason = derive_signal_reason host input in
    if is_empty reason then input.decision.route_reason else reason

-- `summary` of both records: the first of the summary, the reply and the error or refusal reasons
-- that is not null.
unfoldable pub record_summary : SignalInput → Option String
record_summary input =
    and_then input.service_result (λ r. r.summary)
    <|> and_then input.service_result (λ r. r.reply_payload)
    <|> and_then input.delivery_result (λ r. r.error_reason)
    <|> input.decision.escalation_reason
    <|> input.decision.safe_fail_reason

unfoldable pub build_business_notification_record :
    Host → String → String → SignalKind → SignalInput → BusinessNotificationRecord
unfolding record_summary stable_id
build_business_notification_record host created_at project_id kind input = record {
  notification_id = stable_id "notification" (
      some created_at
      ∷ some project_id
      ∷ some (signal_text kind)
      ∷ input.envelope.trace_id
      ∷ input.envelope.action_name
      ∷ []);
  created_at = created_at;
  project_id = project_id;
  signal_kind = kind;
  source = derive_signal_promotion_source input.service_result input.delivery_result;
  trace_id = input.envelope.trace_id;
  action_name = input.envelope.action_name;
  workflow = input.envelope.workflow;
  reason = reason_or_route host input;
  summary = record_summary input;
  run_id = and_then input.service_result (λ r. r.run_id);
  queue_ref = and_then input.service_result (λ r. r.queue_ref);
  artifact_ref = and_then input.service_result (λ r. r.artifact_ref);
}

unfoldable pub build_main_session_escalation_seed :
    Host → String → String → SignalKind → SignalInput → EscalationSeed
unfolding record_summary
build_main_session_escalation_seed host session_key project_id kind input = record {
  canonical_session_key = session_key;
  project_id = project_id;
  signal_kind = kind;
  source = derive_signal_promotion_source input.service_result input.delivery_result;
  reason = reason_or_route host input;
  summary = record_summary input;
  trace_id = input.envelope.trace_id;
  action_name = input.envelope.action_name;
  workflow = input.envelope.workflow;
  run_id = and_then input.service_result (λ r. r.run_id);
  queue_ref = and_then input.service_result (λ r. r.queue_ref);
  artifact_ref = and_then input.service_result (λ r. r.artifact_ref);
  resolution = none;
}

unfoldable pub derive_escalation_dedup_key : EscalationSeed → String
derive_escalation_dedup_key seed = stable_id "escalation" (
    some seed.canonical_session_key
    ∷ some seed.project_id
    ∷ some (signal_text seed.signal_kind)
    ∷ seed.action_name
    ∷ some seed.reason
    ∷ [])
