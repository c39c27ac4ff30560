-- ===== src/Tests/Routing.antt =====
-- Tests of the route decision and of the notification targets.
use assistant_context_router.Prelude.{
  ◌≡◌, ◌≢◌, ◌↔◌, ◌⊎◌, refl, true, false, not, none, some, is_some,
}
use assistant_context_router.Text.{all_chars}
use assistant_context_router.Types.Routing.{
  TargetKind, PreferredTarget, ReplyTargetKind, ReplyMode, ReplyVisibility,
}
use assistant_context_router.Types.Signals.{SignalKind, SignalPromotionSource}
use assistant_context_router.Routing.Decision.{
  decide_route, is_structured, requires_resolved_project, resolved_project, has_service_action,
  preferred_target, route_workflow,
}
use assistant_context_router.Routing.Decision.Table.{
  LacksProject, decide_route-service_iff, decide_route-safe_fail_iff,
}
use assistant_context_router.Routing.Decision.Safety.{
  decide_route-focus_irrelevant, with_session, with_workflow,
}
use assistant_context_router.Routing.ReplyTargets.{
  ResolvedTarget, resolve_feishu_target_from_reply_target, resolve_ref, feishu_target,
}
use assistant_context_router.Routing.NotificationDelivery.{
  PlanInput, build_business_notification_delivery_plan, resolution_of, candidate,
}
use assistant_context_router.Routing.NotificationDelivery.Plan.{plan-deliverable}
use assistant_context_router.Routing.NotificationDelivery.Targets.{
  IsAddressable, IsFor, plan-IsAddressable,
}
use assistant_context_router.Tests.Samples.{lost_message, named_message, named_envelope}

to_service : (decide_route named_message).target_id ≡ some "acr:dispatch"
unfolding decide_route is_structured requires_resolved_project resolved_project has_service_action
    preferred_target
to_service = refl

decide_route-service_iff_example :
    ((decide_route named_message).target_kind ≡ TargetKind.service) ↔ (
      (is_structured named_message ≡ true)
      × (¬ LacksProject named_message)
      × (has_service_action named_message ≡ true)
      × (preferred_target named_message ≢ some PreferredTarget.project_session))
decide_route-service_iff_example = decide_route-service_iff named_message

decide_route-safe_fail_iff_example :
    ((decide_route lost_message).target_kind ≡ TargetKind.safe_fail) ↔ (
      (is_structured lost_message ≡ true)
      × (LacksProject lost_message
          ⊎ ((preferred_target lost_message ≡ some PreferredTarget.service)
              × (has_service_action lost_message ≡ false))))
decide_route-safe_fail_iff_example = decide_route-safe_fail_iff lost_message

-- A notification for a message that came from a Feishu chat.
abbrev chat_plan : PlanInput
chat_plan = record {
  notification = record {
    notification_id = "notification:1";
    created_at = "now";
    project_id = "acr";
    signal_kind = SignalKind.blocked;
    source = SignalPromotionSource.route_decision;
    trace_id = none;
    action_name = none;
    workflow = none;
    reason = "blocked";
    summary = none;
    run_id = none;
    queue_ref = none;
    artifact_ref = none;
  };
  envelope = record named_envelope {
    reply_target = some (record {
      target_kind = ReplyTargetKind.channel;
      target_id = some " feishu:chat:oc_1a ";
      visibility = ReplyVisibility.human_facing;
      reply_mode = ReplyMode.direct;
    });
  };
  default_reply_target = none;
  default_delivery_target = none;
}

plan-deliverable_example :
    (is_some (build_business_notification_delivery_plan chat_plan).error_reason
      ≡ not (build_business_notification_delivery_plan chat_plan).deliverable)
    × (is_some (build_business_notification_delivery_plan chat_plan).seed.channel_type
        ≡ (build_business_notification_delivery_plan chat_plan).deliverable)
    × (is_some (build_business_notification_delivery_plan chat_plan).seed.target_kind
        ≡ (build_business_notification_delivery_plan chat_plan).deliverable)
    × (is_some (build_business_notification_delivery_plan chat_plan).seed.delivery_mode
        ≡ (build_business_notification_delivery_plan chat_plan).deliverable)
plan-deliverable_example = plan-deliverable chat_plan

plan-IsAddressable_example :
    (t : ResolvedTarget) × IsAddressable t
    × IsFor t (build_business_notification_delivery_plan chat_plan).seed
unfolding build_business_notification_delivery_plan resolution_of candidate
    resolve_feishu_target_from_reply_target resolve_ref feishu_target all_chars
plan-IsAddressable_example = plan-IsAddressable chat_plan refl refl

decide_route-focus_irrelevant_example :
    ((decide_route named_message).resolved_project_id ≡ "acr")
    × (decide_route (with_session named_message none)
        ≡ with_workflow
            (decide_route named_message)
            (route_workflow (with_session named_message none)))
unfolding is_structured
decide_route-focus_irrelevant_example =
    decide_route-focus_irrelevant named_message "acr" none refl refl
