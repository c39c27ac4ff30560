-- ===== src/Tests/Signals.antt =====
-- Tests of signals, promotions and ids.
use assistant_context_router.Prelude.{◌≡◌, ◌↔◌, true, false, none, some}
use assistant_context_router.Text.{includes}
use assistant_context_router.Types.Signals.{SignalKind}
use assistant_context_router.Routing.Decision.{decide_route}
use assistant_context_router.Routing.SignalPromotion.{
  SignalInput, derive_project_session_signal_kind,
}
use assistant_context_router.Routing.SignalPromotion.Kind.{
  undelivered, service_failed, asks_for_person, tells_completion, reason,
  signal_kind-review_request_iff, signal_kind-completion_iff,
}
use assistant_context_router.Tests.Samples.{
  sample_host, named_message, named_envelope, sample_result,
}

-- A service that completed the action of an automation message.
abbrev completed : SignalInput
completed = record {
  decision = decide_route named_message;
  envelope = named_envelope;
  service_result = some sample_result;
  delivery_result = none;
  completion_notify_mode = none;
}

signal_kind-review_request_iff_example :
    (derive_project_session_signal_kind sample_host completed ≡ SignalKind.review_request) ↔ (
      (undelivered sample_host completed ≡ false)
      × (service_failed sample_host completed ≡ false)
      × (asks_for_person sample_host completed ≡ true)
      × (includes (reason sample_host completed) "block" ≡ false)
      × (includes (reason sample_host completed) "review" ≡ true))
signal_kind-review_request_iff_example = signal_kind-review_request_iff sample_host completed

signal_kind-completion_iff_example :
    (derive_project_session_signal_kind sample_host completed ≡ SignalKind.high_signal_completion)
    ↔ ((undelivered sample_host completed ≡ false)
        × (service_failed sample_host completed ≡ false)
        × (asks_for_person sample_host completed ≡ false)
        × (tells_completion sample_host completed ≡ true))
signal_kind-completion_iff_example = signal_kind-completion_iff sample_host completed
