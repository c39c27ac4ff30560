-- ===== src/Routing/SignalPromotion.antt =====
-- routing/signal-promotion.ts: the signal of a routed message, and where it is promoted to.
pub mod Kind
use assistant_context_router.Prelude.{
  String, Bool, true, false, not, ◌&&◌, ◌||◌, Option, none, some, List, [], ◌∷◌, filter, map, any,
  if◌then◌else◌, and_then, or_else, is_some,
}
use assistant_context_router.Text.{truthy, is_empty, trim, join, includes}
use assistant_context_router.Host.{Host}
use assistant_context_router.Types.Routing.{
  NormalizedEnvelope, RouteDecision, ServiceResult, ServiceStatus, WorkSurfaceActionName,
  SourceType, DeliveryResult, DeliveryStatus, CompletionNotifyMode,
}
use assistant_context_router.Types.Signals.{SignalKind, CollabPromotion, SignalPromotionDecision}

-- What the functions of this file are given; `completion_notify_mode` is the signal policy.
pub record SignalInput : Type 0 where
  pub decision : RouteDecision
  pub envelope : NormalizedEnvelope
  pub service_result : Option ServiceResult
  pub delivery_result : Option DeliveryResult
  pub completion_notify_mode : Option CompletionNotifyMode

abbrev not_blank : String → Bool
not_blank s = not (is_empty (trim s))

-- The texts of the list that are present and not blank.
present : List (Option String) → List String
present [] = []
present (none ∷ rest) = present rest
present (some s ∷ rest) = let more = present rest in if not_blank s then s ∷ more else more

-- The texts that `deriveSignalReason` joins, in its order.
abbrev pub reason_parts : SignalInput → List (Option String)
reason_parts input =
    and_then input.delivery_result (λ r. r.error_reason)
    ∷ and_then input.service_result (λ r. r.escalation_reason)
    ∷ input.decision.escalation_reason
    ∷ input.decision.safe_fail_reason
    ∷ and_then input.service_result (λ r. r.summary)
    ∷ []

unfoldable pub derive_signal_reason : Host → SignalInput → String
unfolding present
derive_signal_reason host input = host.to_lower (join " " (present (reason_parts input)))

abbrev decision_hints : List String
decision_hints =
    "decision" ∷ "approval" ∷ "approve" ∷ "human decision" ∷ "human approval" ∷ "project_owner"
    ∷ "project owner" ∷ "coordinator-agent" ∷ "coordinator agent" ∷ "takeover" ∷ []

unfoldable pub has_human_decision_hint : String → Bool
has_human_decision_hint reason = any (λ keyword. includes reason keyword) decision_hints

abbrev pub delivery_failed : DeliveryStatus → Bool
delivery_failed DeliveryStatus.failed = true
delivery_failed DeliveryStatus.unresolved_binding = true
delivery_failed DeliveryStatus.delivered = false
delivery_failed DeliveryStatus.queued = false

abbrev pub is_error : ServiceStatus → Bool
is_error ServiceStatus.error = true
is_error ServiceStatus.ok = false
is_error ServiceStatus.needs_escalation = false

abbrev pub is_ok : ServiceStatus → Bool
is_ok ServiceStatus.ok = true
is_ok ServiceStatus.error = false
is_ok ServiceStatus.needs_escalation = false

abbrev pub is_complete : Option WorkSurfaceActionName → Bool
is_complete none = false
is_complete (some WorkSurfaceActionName.complete) = true
is_complete (some WorkSurfaceActionName.dispatch) = false
is_complete (some WorkSurfaceActionName.review) = false
is_complete (some WorkSurfaceActionName.review_request) = false
is_complete (some WorkSurfaceActionName.review_resolution) = false
is_complete (some WorkSurfaceActionName.blocked) = false

abbrev pub is_dm : Option CompletionNotifyMode → Bool
is_dm none = false
is_dm (some CompletionNotifyMode.dm_on_completion_boundary) = true
is_dm (some CompletionNotifyMode.no_dm_on_completion_boundary) = false

abbrev pub is_automation : SourceType → Bool
is_automation SourceType.automation = true
is_automation SourceType.human = false
is_automation SourceType.agent = false

-- A test on the service result that is false when there is none.
abbrev pub on_service : SignalInput → (ServiceResult → Bool) → Bool
on_service input test = elim input.service_result [ none ↦ false | some r ↦ test r ]

-- A test on the delivery result that is false when there is none.
abbrev pub on_delivery : SignalInput → (DeliveryResult → Bool) → Bool
on_delivery input test = elim input.delivery_result [ none ↦ false | some r ↦ test r ]

-- The signal of a message that needs a person, by the words of its reason.
kind_by_reason : String → SignalKind
kind_by_reason reason =
    if includes reason "block"
    then SignalKind.blocked
    else if includes reason "review"
    then SignalKind.review_request
    else SignalKind.blocked

unfoldable pub derive_project_session_signal_kind : Host → SignalInput → SignalKind
unfolding kind_by_reason
derive_project_session_signal_kind host input =
    if on_delivery input (λ r. delivery_failed r.status)
    then SignalKind.blocked
    else if on_service input (λ r. is_error r.status)
    then SignalKind.service_error
    else if on_service input (λ r. r.needs_escalation)
    then kind_by_reason (derive_signal_reason host input)
    else if truthy input.decision.escalation_reason
    then kind_by_reason (derive_signal_reason host input)
    else if on_service input (λ r. is_ok r.status && is_complete r.work_surface_action)
        && is_dm input.completion_notify_mode
    then SignalKind.high_signal_completion
    else if on_service input (λ r. is_ok r.status && (truthy r.reply_payload || truthy r.summary))
        && is_automation input.envelope.source_type
    then SignalKind.high_signal_completion
    else SignalKind.none

-- A promotion that goes to the work surface, and to the main session if a person has to decide.
promote : SignalKind → Bool → String → String → SignalPromotionDecision
promote kind needs_human asked otherwise = record {
  signal_kind = kind;
  business_notification = true;
  main_session_escalation = needs_human;
  collab_promotion = CollabPromotion.persistent_only;
  reason = if needs_human then asked else otherwise;
}

-- The branches of `decideSignalPromotion`; its last one, for other signals, is never taken.
promotion_of : SignalKind → Bool → SignalPromotionDecision
unfolding promote
promotion_of SignalKind.none needs_human = record {
  signal_kind = SignalKind.none;
  business_notification = false;
  main_session_escalation = false;
  collab_promotion = CollabPromotion.none;
  reason = "Local-only signal; no promotion required.";
}
promotion_of SignalKind.high_signal_completion needs_human = record {
  signal_kind = SignalKind.high_signal_completion;
  business_notification = true;
  main_session_escalation = false;
  collab_promotion = CollabPromotion.none;
  reason = "High-signal completion should surface to work/business channels first.";
}
promotion_of SignalKind.review_request needs_human =
    promote SignalKind.review_request needs_human
      "Review request explicitly requires human/governance decision."
      "Review request should stay in business/work surface unless it remains unresolved."
promotion_of SignalKind.blocked needs_human =
    promote SignalKind.blocked needs_human
      "Blocked/error signal requires human/governance decision."
      "Blocked/error signal should stay in business/work surface unless it remains unresolved."
promotion_of SignalKind.service_error needs_human =
    promote SignalKind.service_error needs_human
      "Blocked/error signal requires human/governance decision."
      "Blocked/error signal should stay in business/work surface unless it remains unresolved."

unfoldable pub decide_signal_promotion : Host → SignalKind → SignalInput → SignalPromotionDecision
unfolding promotion_of
decide_signal_promotion host kind input =
    promotion_of kind (has_human_decision_hint (derive_signal_reason host input))
