-- ===== src/Routing/SignalPromotion/Kind.antt =====
-- When each signal of routing/signal-promotion.ts is raised.
use assistant_context_router.Prelude.{
  String, ◌≡◌, ◌↔◌, Bool, true, false, ◌&&◌, ◌||◌, refl, arith, if◌then◌else◌, ap, ◌∙◌,
}
use assistant_context_router.Text.{truthy, includes}
use assistant_context_router.Host.{Host}
use assistant_context_router.Types.Signals.{SignalKind}
use assistant_context_router.Routing.SignalPromotion.{
  SignalInput, derive_project_session_signal_kind, derive_signal_reason, on_service, on_delivery,
  is_error, is_ok, is_complete, is_dm, is_automation, delivery_failed, kind_by_reason,
}

-- The tests of a signal, with those joined that lead to the same signal.
abbrev cascade : Bool → Bool → Bool → Bool → SignalKind → SignalKind
cascade undelivered failed asks completes kind =
    if undelivered
    then SignalKind.blocked
    else if failed
    then SignalKind.service_error
    else if asks
    then kind
    else if completes
    then SignalKind.high_signal_completion
    else SignalKind.none

join_tests :
    (a b c d e f : Bool) (k : SignalKind)
    → (if a
        then SignalKind.blocked
        else if b
        then SignalKind.service_error
        else if c
        then k
        else if d
        then k
        else if e
        then SignalKind.high_signal_completion
        else if f
        then SignalKind.high_signal_completion
        else SignalKind.none)
      ≡ cascade a b (c || d) (e || f) k
join_tests true b c d e f k = refl
join_tests false true c d e f k = refl
join_tests false false true d e f k = refl
join_tests false false false true e f k = refl
join_tests false false false false true f k = refl
join_tests false false false false false f k = refl

review_cascade :
    (a b c d x y : Bool)
    → (cascade a b c d (
          if x
          then SignalKind.blocked
          else if y
          then SignalKind.review_request
          else SignalKind.blocked)
        ≡ SignalKind.review_request)
      ↔ ((a ≡ false) × (b ≡ false) × (c ≡ true) × (x ≡ false) × (y ≡ true))
review_cascade a b c d x y = ground arith

completion_cascade :
    (a b c d x y : Bool)
    → (cascade a b c d (
          if x
          then SignalKind.blocked
          else if y
          then SignalKind.review_request
          else SignalKind.blocked)
        ≡ SignalKind.high_signal_completion)
      ↔ ((a ≡ false) × (b ≡ false) × (c ≡ false) × (d ≡ true))
completion_cascade a b c d x y = ground arith

none_cascade :
    (a b c d x y : Bool)
    → (cascade a b c d (
          if x
          then SignalKind.blocked
          else if y
          then SignalKind.review_request
          else SignalKind.blocked)
        ≡ SignalKind.none)
      ↔ ((a ≡ false) × (b ≡ false) × (c ≡ false) × (d ≡ false))
none_cascade a b c d x y = ground arith

module _ (host : Host) (input : SignalInput) where
  -- The delivery failed or had no binding.
  abbrev pub undelivered : Bool
  undelivered = on_delivery input (λ r. delivery_failed r.status)

  -- The service reported an error.
  abbrev pub service_failed : Bool
  service_failed = on_service input (λ r. is_error r.status)

  -- The service or the route asks for a person.
  abbrev pub asks_for_person : Bool
  asks_for_person =
      on_service input (λ r. r.needs_escalation) || truthy input.decision.escalation_reason

  -- The service succeeded, and either it completed an item under a policy that tells completions, or
  -- it answered an automation.
  abbrev pub tells_completion : Bool
  tells_completion =
      on_service input (λ r. is_ok r.status)
      && ((on_service input (λ r. is_complete r.work_surface_action)
            && is_dm input.completion_notify_mode)
          || (on_service input (λ r. truthy r.reply_payload || truthy r.summary)
              && is_automation input.envelope.source_type))

  abbrev pub reason : String
  reason = derive_signal_reason host input

  abbrev completes_by_policy : Bool
  completes_by_policy =
      on_service input (λ r. is_ok r.status && is_complete r.work_surface_action)
      && is_dm input.completion_notify_mode

  abbrev answers_automation : Bool
  answers_automation =
      on_service input (λ r. is_ok r.status && (truthy r.reply_payload || truthy r.summary))
      && is_automation input.envelope.source_type

  completion_tests : (completes_by_policy || answers_automation) ≡ tells_completion
  completion_tests = ground arith

  -- The code is the cascade of its tests.
  signal_kind-cascade :
      derive_project_session_signal_kind host input
      ≡ cascade undelivered service_failed asks_for_person tells_completion (kind_by_reason reason)
  unfolding derive_project_session_signal_kind
  signal_kind-cascade =
      join_tests undelivered service_failed (on_service input (λ r. r.needs_escalation))
        (truthy input.decision.escalation_reason) completes_by_policy answers_automation
        (kind_by_reason reason)
      ∙ ap (λ t. cascade undelivered service_failed asks_for_person t (kind_by_reason reason))
          completion_tests

  -- A review is requested exactly when neither delivery nor service failed, a person is asked for,
  -- and the reason speaks of a review and not of a block.
  pub signal_kind-review_request_iff :
      (derive_project_session_signal_kind host input ≡ SignalKind.review_request) ↔ (
        (undelivered ≡ false)
        × (service_failed ≡ false)
        × (asks_for_person ≡ true)
        × (includes reason "block" ≡ false)
        × (includes reason "review" ≡ true))
  signal_kind-review_request_iff = rw signal_kind-cascade (
      unfold kind_by_reason in
      review_cascade undelivered service_failed asks_for_person tells_completion
        (includes reason "block") (includes reason "review"))

  -- A completion is signalled exactly when nothing failed, no person is asked for, and the service
  -- succeeded with a result that the policy or the automation asks to tell.
  pub signal_kind-completion_iff :
      (derive_project_session_signal_kind host input ≡ SignalKind.high_signal_completion) ↔ (
        (undelivered ≡ false)
        × (service_failed ≡ false)
        × (asks_for_person ≡ false)
        × (tells_completion ≡ true))
  signal_kind-completion_iff = rw signal_kind-cascade (
      unfold kind_by_reason in
      completion_cascade undelivered service_failed asks_for_person tells_completion
        (includes reason "block") (includes reason "review"))

  -- A message is silent exactly when nothing failed, no person is asked for, and there is no
  -- completion to tell: no failure is ever silent.
  pub signal_kind-none_iff : (derive_project_session_signal_kind host input ≡ SignalKind.none) ↔ (
      (undelivered ≡ false)
      × (service_failed ≡ false)
      × (asks_for_person ≡ false)
      × (tells_completion ≡ false))
  signal_kind-none_iff = rw signal_kind-cascade (
      unfold kind_by_reason in
      none_cascade undelivered service_failed asks_for_person tells_completion
        (includes reason "block") (includes reason "review"))
