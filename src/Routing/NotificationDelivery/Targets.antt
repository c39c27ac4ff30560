-- ===== src/Routing/NotificationDelivery/Targets.antt =====
-- The references that a delivery plan hands to the Feishu transport.
use mathlib.Core.Option.{some-injective}
use assistant_context_router.Prelude.{
  String, ◌≡◌, ◌⊎◌, refl, Bool, true, false, not, ◌||◌, Option, none, some, arith, ◌==◌, Bool-cases,
  inl, inr, ◌<|>◌, and_then, if◌then◌else◌, subst, sym, or_else, is_some,
}
use assistant_context_router.Text.{trim, is_empty}
use assistant_context_router.Types.Routing.{ChannelType}
use assistant_context_router.Types.Signals.{NotificationDeliverySeed}
use assistant_context_router.Routing.ReplyTargets.{
  Resolution, ResolvedTarget, ReplyFields, feishu_target, is_token, channel_text, is_channel,
  is_direct, namespaced, after, feishu, or_unsupported, resolve_ref,
  resolve_feishu_target_from_reply_target,
}
use assistant_context_router.Routing.NotificationDelivery.{
  PlanInput, build_business_notification_delivery_plan, resolution_of, candidate,
}

-- A reference that the Feishu transport can address, for its kind and mode: a bare chat, user or
-- message id, with messages answered by a reply or in their thread.
abbrev pub IsAddressable : ResolvedTarget → Type 0
IsAddressable t =
    (t.channel_type ≡ "feishu")
    × (((t.target_kind ≡ "chat")
          × (t.delivery_mode ≡ "channel_message")
          × (is_token "oc_" t.target_ref ≡ true))
        ⊎ ((t.target_kind ≡ "user")
            × (t.delivery_mode ≡ "channel_message")
            × (is_token "ou_" t.target_ref ≡ true))
        ⊎ ((t.target_kind ≡ "message")
            × ((t.delivery_mode ≡ "reply") ⊎ (t.delivery_mode ≡ "thread_reply"))
            × (is_token "om_" t.target_ref ≡ true)))

-- The target, if there is one, can be addressed.
record Reaches (o : Option ResolvedTarget) : Type 0 where
  at : (t : ResolvedTarget) → o ≡ some t → IsAddressable t

Reaches-none : Reaches none
Reaches-none = record { at = λ t e. absurd (ground arith) }

Reaches-some : (t : ResolvedTarget) → IsAddressable t → Reaches (some t)
Reaches-some t h = record { at = λ u e. subst IsAddressable (some-injective t u e) h }

Reaches-if :
    (b : Bool) (x y : Option ResolvedTarget)
    → (b ≡ true → Reaches x)
    → Reaches y
    → Reaches (if b then x else y)
Reaches-if true x y hx hy = hx refl
Reaches-if false x y hx hy = hy

Reaches-token :
    (prefix kind mode ref : String) (y : Option ResolvedTarget)
    → (is_token prefix ref ≡ true → IsAddressable (feishu kind mode ref))
    → Reaches y
    → Reaches (if is_token prefix ref then some (feishu kind mode ref) else y)
Reaches-token prefix kind mode ref y h hy =
    Reaches-if (is_token prefix ref) (some (feishu kind mode ref)) y
      (λ t. Reaches-some (feishu kind mode ref) (h t)) hy

Reaches-or : (x y : Option ResolvedTarget) → Reaches x → Reaches y → Reaches (x <|> y)
Reaches-or none y hx hy = hy
Reaches-or (some t) y hx hy = hx

Reaches-namespaced :
    (namespace prefix ref : String) (f : String → ResolvedTarget)
    → ((r : String) → is_token prefix r ≡ true → IsAddressable (f r))
    → Reaches (and_then (namespaced namespace prefix ref) (λ r. some (f r)))
unfolding namespaced
Reaches-namespaced namespace prefix ref f h = by_rest (after namespace ref)
  where
    by_rest :
        (o : Option String)
        → Reaches (
            and_then
              (and_then o (λ rest. if is_token prefix rest then some rest else none))
              (λ r. some (f r)))
    by_rest none = Reaches-none
    by_rest (some rest) = elim (Bool-cases (is_token prefix rest)) [
      | inl t ↦ rw t (Reaches-some (f rest) (h rest t))
      | inr u ↦ rw u Reaches-none
    ]

-- Every reference that is recognised is brought to one that the transport can address.
feishu_target-Reaches : (ref : String) → Reaches (feishu_target ref)
unfolding feishu_target
feishu_target-Reaches ref =
    Reaches-token "oc_" "chat" "channel_message" ref _ (λ h. (refl, inl (refl, refl, h)))
      (Reaches-token "ou_" "user" "channel_message" ref _ (λ h. (refl, inr (inl (refl, refl, h))))
        (Reaches-token "om_" "message" "reply" ref _ (λ h. (refl, inr (inr (refl, inl refl, h))))
          (Reaches-or _ _
            (Reaches-namespaced "feishu:chat:" "oc_" ref (feishu "chat" "channel_message")
              λ r h. (refl, inl (refl, refl, h)))
            (Reaches-or _ _
              (Reaches-namespaced "feishu:user:" "ou_" ref (feishu "user" "channel_message")
                λ r h. (refl, inr (inl (refl, refl, h))))
              (Reaches-or _ _
                (Reaches-namespaced "feishu:message:" "om_" ref (feishu "message" "reply")
                  λ r h. (refl, inr (inr (refl, inl refl, h))))
                (Reaches-namespaced "feishu:thread:" "om_" ref (feishu "message" "thread_reply")
                  λ r h. (refl, inr (inr (refl, inr refl, h)))))))))

or_unsupported-Reaches :
    (ref : String) (o : Option ResolvedTarget) → Reaches o → Reaches (or_unsupported ref o).target
unfolding or_unsupported
or_unsupported-Reaches ref none h = Reaches-none
or_unsupported-Reaches ref (some t) h = h

target_if :
    (b : Bool) (x y : Resolution)
    → Reaches x.target
    → Reaches y.target
    → Reaches (if b then x else y).target
target_if true x y hx hy = hx
target_if false x y hx hy = hy

reply-Reaches :
    (channel : ChannelType) (reply : Option ReplyFields) (missing : String)
    → Reaches (resolve_feishu_target_from_reply_target channel reply missing).target
unfolding resolve_feishu_target_from_reply_target resolve_ref
reply-Reaches channel none missing = Reaches-none
reply-Reaches channel (some reply) missing =
    let ref = or_else (and_then reply.target_id (λ id. some (trim id))) "" in
    target_if (not (channel_text channel == "feishu")) _ _ Reaches-none (
      target_if (not (is_channel reply.target_kind) || not (is_direct reply.reply_mode)) _ _
        Reaches-none
        (target_if (is_empty ref) _ _ Reaches-none
          (or_unsupported-Reaches ref (feishu_target ref) (feishu_target-Reaches ref))))

unconfigured :
    (input : PlanInput)
    → input.default_delivery_target ≡ none
    → resolution_of input
      ≡ resolve_feishu_target_from_reply_target
          (candidate input).channel_type
          (candidate input).reply_target
          (candidate input).missing_target_error_reason
unfolding resolution_of candidate
unconfigured input e = rw (e, resolution_of)

resolution-Reaches :
    (input : PlanInput)
    → input.default_delivery_target ≡ none
    → Reaches (resolution_of input).target
resolution-Reaches input none_configured =
    subst (λ (r : Resolution). Reaches r.target) (sym (unconfigured input none_configured))
      (reply-Reaches _ _ _)

-- The seed of a delivery is for a target: its channel, kind, reference and mode are the target's.
abbrev pub IsFor : ResolvedTarget → NotificationDeliverySeed → Type 0
IsFor t seed =
    (seed.channel_type ≡ some t.channel_type)
    × (seed.target_kind ≡ some t.target_kind)
    × (seed.target_ref ≡ some t.target_ref)
    × (seed.delivery_mode ≡ some t.delivery_mode)

seed-IsFor :
    (input : PlanInput) (o : Option ResolvedTarget)
    → (resolution_of input).target ≡ o
    → is_some o ≡ true
    → Reaches o
    → (t : ResolvedTarget) × IsAddressable t
      × IsFor t (build_business_notification_delivery_plan input).seed
unfolding build_business_notification_delivery_plan
seed-IsFor input none e d h = absurd (ground arith)
seed-IsFor input (some t) e d h = (t, h.at t refl, rw e (refl, refl, refl, refl))

-- Where no delivery target is configured, whatever reply target the envelope or the workflow names,
-- the delivery of a deliverable plan is for a target that the Feishu transport can address: its
-- reference is the bare chat, user or message id of its kind and mode, and not the raw one of the
-- reply target, which may be namespaced.
pub plan-IsAddressable :
    (input : PlanInput)
    → input.default_delivery_target ≡ none
    → (build_business_notification_delivery_plan input).deliverable ≡ true
    → (t : ResolvedTarget) × IsAddressable t
      × IsFor t (build_business_notification_delivery_plan input).seed
unfolding build_business_notification_delivery_plan
plan-IsAddressable input none_configured deliverable =
    seed-IsFor input (resolution_of input).target refl deliverable
      (resolution-Reaches input none_configured)
