-- ===== src/Routing/NotificationDelivery/Plan.antt =====
-- What a delivery plan of routing/business-notification-delivery.ts promises to the transport.
use assistant_context_router.Prelude.{
  String, ◌≡◌, refl, Bool, true, false, not, ◌||◌, Option, none, some, arith, is_some, ◌==◌,
  Option-cases, inl, inr, if◌then◌else◌,
}
use assistant_context_router.Types.Routing.{ChannelType}
use assistant_context_router.Routing.ReplyTargets.{
  Resolution, ResolvedTarget, ReplyFields, DeliveryBinding, feishu_target, channel_text, is_channel,
  is_direct, for_feishu, for_wechat, or_unsupported, resolve_ref, resolved, rejected,
  resolve_feishu_target_from_reply_target, resolve_target_from_delivery_binding,
}
use assistant_context_router.Routing.NotificationDelivery.{
  PlanInput, resolution_of, build_business_notification_delivery_plan,
}

-- A resolution has a target or a reason why not, never both and never neither.
record IsExclusive (r : Resolution) : Type 0 where
  exclusive : is_some r.error_reason ≡ not (is_some r.target)

rejected-IsExclusive : (reason : String) → IsExclusive (rejected reason)
rejected-IsExclusive reason = record { exclusive = refl }

resolved-IsExclusive : (t : ResolvedTarget) → IsExclusive (resolved t)
resolved-IsExclusive t = record { exclusive = refl }

if-IsExclusive :
    (b : Bool) (x y : Resolution) → IsExclusive x → IsExclusive y → IsExclusive (if b then x else y)
if-IsExclusive true x y hx hy = hx
if-IsExclusive false x y hx hy = hy

or_unsupported-IsExclusive :
    (ref : String) (t : Option ResolvedTarget) → IsExclusive (or_unsupported ref t)
unfolding or_unsupported
or_unsupported-IsExclusive ref none = rejected-IsExclusive _
or_unsupported-IsExclusive ref (some t) = resolved-IsExclusive t

resolve_ref-IsExclusive : (ref : String) → IsExclusive (resolve_ref ref)
unfolding resolve_ref
resolve_ref-IsExclusive ref =
    if-IsExclusive _ _ _ (rejected-IsExclusive _)
      (or_unsupported-IsExclusive ref (feishu_target ref))

reply-IsExclusive :
    (channel : ChannelType) (reply : Option ReplyFields) (missing : String)
    → IsExclusive (resolve_feishu_target_from_reply_target channel reply missing)
unfolding resolve_feishu_target_from_reply_target
reply-IsExclusive channel none missing = rejected-IsExclusive missing
reply-IsExclusive channel (some reply) missing =
    if-IsExclusive (not (channel_text channel == "feishu")) _ _ (rejected-IsExclusive _) (
      if-IsExclusive (not (is_channel reply.target_kind) || not (is_direct reply.reply_mode)) _ _
        (rejected-IsExclusive _) (resolve_ref-IsExclusive _))

binding-IsExclusive :
    (b : Option DeliveryBinding) → IsExclusive (resolve_target_from_delivery_binding b)
unfolding resolve_target_from_delivery_binding
binding-IsExclusive none = rejected-IsExclusive _
binding-IsExclusive (some b) =
    if-IsExclusive (for_feishu b) _ _ (resolved-IsExclusive _)
      (if-IsExclusive (for_wechat b) _ _ (resolved-IsExclusive _) (rejected-IsExclusive _))

resolution-IsExclusive : (input : PlanInput) → IsExclusive (resolution_of input)
unfolding resolution_of
resolution-IsExclusive input = elim (Option-cases input.default_delivery_target) [
  | inl e ↦ rw (e, resolution_of) (reply-IsExclusive _ _ _)
  | inr (b, e) ↦ rw (e, resolution_of) (binding-IsExclusive (some b))
]

-- Whatever the notification and its targets, a plan is deliverable or has an error reason, never both
-- and never neither; and its channel, target kind and delivery mode are given exactly if it is
-- deliverable.
pub plan-deliverable :
    (input : PlanInput)
    → (is_some (build_business_notification_delivery_plan input).error_reason
        ≡ not (build_business_notification_delivery_plan input).deliverable)
      × (is_some (build_business_notification_delivery_plan input).seed.channel_type
          ≡ (build_business_notification_delivery_plan input).deliverable)
      × (is_some (build_business_notification_delivery_plan input).seed.target_kind
          ≡ (build_business_notification_delivery_plan input).deliverable)
      × (is_some (build_business_notification_delivery_plan input).seed.delivery_mode
          ≡ (build_business_notification_delivery_plan input).deliverable)
unfolding build_business_notification_delivery_plan
plan-deliverable input =
    ((resolution-IsExclusive input).exclusive, ground arith, ground arith, ground arith)
