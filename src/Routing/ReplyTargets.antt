-- ===== src/Routing/ReplyTargets.antt =====
-- routing/business-notification-delivery.ts: the Feishu and WeChat targets that reply targets and
-- configured delivery targets resolve to.
use assistant_context_router.Prelude.{
  String, Bool, true, false, not, ◌&&◌, ◌||◌, Option, none, some, ◌==◌, ◌<|>◌, nat_eq,
  if◌then◌else◌, and_then, or_else,
}
use Prim.Native.Char.{code}
use assistant_context_router.Text.{◌⧺◌, trim, is_empty, all_chars, is_alnum}
use assistant_context_router.Types.Routing.{ReplyTargetKind, ReplyMode, ChannelType}

pub record DeliveryBinding : Type 0 where
  pub channel_type : String
  pub target_kind : String
  pub target_ref : String
  pub delivery_mode : String

-- A target that the transport can address.
pub record ResolvedTarget : Type 0 where
  pub channel_type : String
  pub target_kind : String
  pub target_ref : String
  pub delivery_mode : String

-- `{ target, error_reason }`
pub record Resolution : Type 0 where
  pub target : Option ResolvedTarget
  pub error_reason : Option String

abbrev pub resolved : ResolvedTarget → Resolution
resolved t = record { target = some t; error_reason = none }

abbrev pub rejected : String → Resolution
rejected reason = record { target = none; error_reason = some reason }

-- The fields of a reply target that the resolution reads.
pub record ReplyFields : Type 0 where
  pub target_kind : ReplyTargetKind
  pub target_id : Option String
  pub reply_mode : ReplyMode

abbrev pub channel_text : ChannelType → String
channel_text ChannelType.tui = "tui"
channel_text ChannelType.wechat = "wechat"
channel_text ChannelType.feishu = "feishu"
channel_text ChannelType.discord = "discord"
channel_text ChannelType.unknown = "unknown"

abbrev pub reply_kind_text : ReplyTargetKind → String
reply_kind_text ReplyTargetKind.channel = "channel"
reply_kind_text ReplyTargetKind.main_session = "main_session"
reply_kind_text ReplyTargetKind.project_session = "project_session"
reply_kind_text ReplyTargetKind.silent_log = "silent_log"

abbrev pub reply_mode_text : ReplyMode → String
reply_mode_text ReplyMode.direct = "direct"
reply_mode_text ReplyMode.escalate = "escalate"
reply_mode_text ReplyMode.silent_log = "silent_log"

-- What follows a prefix, if the text has it.
unfoldable pub after : String → String → Option String
after String.[] s = some s
after (String.◌∷◌ k key) String.[] = none
after (String.◌∷◌ k key) (String.◌∷◌ c s) =
    let rest = after key s in if nat_eq (code k) (code c) then rest else none

-- `/^<prefix>[A-Za-z0-9]+$/.test(ref)`
unfoldable pub is_token : String → String → Bool
unfolding after is_alnum
is_token prefix ref = elim (after prefix ref) [
  | none ↦ false
  | some rest ↦ not (is_empty rest) && all_chars is_alnum rest
]

-- `/^<namespace>(<prefix>[A-Za-z0-9]+)$/.exec(ref)?.[1]`
unfoldable pub namespaced : String → String → String → Option String
unfolding is_token
namespaced namespace prefix ref =
    and_then (after namespace ref) (λ rest. if is_token prefix rest then some rest else none)

abbrev pub feishu : String → String → String → ResolvedTarget
feishu kind mode ref = record {
  channel_type = "feishu";
  target_kind = kind;
  target_ref = ref;
  delivery_mode = mode;
}

-- The seven forms of a Feishu reference, in the order in which they are tried.
unfoldable pub feishu_target : String → Option ResolvedTarget
unfolding is_token namespaced
feishu_target ref =
    if is_token "oc_" ref
    then some (feishu "chat" "channel_message" ref)
    else if is_token "ou_" ref
    then some (feishu "user" "channel_message" ref)
    else if is_token "om_" ref
    then some (feishu "message" "reply" ref)
    else and_then (namespaced "feishu:chat:" "oc_" ref)
        (λ r. some (feishu "chat" "channel_message" r))
      <|> and_then (namespaced "feishu:user:" "ou_" ref)
          (λ r. some (feishu "user" "channel_message" r))
      <|> and_then (namespaced "feishu:message:" "om_" ref) (λ r. some (feishu "message" "reply" r))
      <|> and_then (namespaced "feishu:thread:" "om_" ref)
          (λ r. some (feishu "message" "thread_reply" r))

abbrev pub is_channel : ReplyTargetKind → Bool
is_channel ReplyTargetKind.channel = true
is_channel ReplyTargetKind.main_session = false
is_channel ReplyTargetKind.project_session = false
is_channel ReplyTargetKind.silent_log = false

abbrev pub is_direct : ReplyMode → Bool
is_direct ReplyMode.direct = true
is_direct ReplyMode.escalate = false
is_direct ReplyMode.silent_log = false

-- The target that a reference was matched to, or the reason why there is none.
unfoldable pub or_unsupported : String → Option ResolvedTarget → Resolution
or_unsupported ref none = rejected ("record_only:unsupported_feishu_reply_target:" ⧺ ref)
or_unsupported ref (some t) = resolved t

-- A Feishu reference, trimmed, to its target or to the reason why there is none.
unfoldable pub resolve_ref : String → Resolution
unfolding or_unsupported
resolve_ref ref =
    if is_empty ref
    then rejected "record_only:missing_reply_target_id"
    else or_unsupported ref (feishu_target ref)

unfoldable pub resolve_feishu_target_from_reply_target :
    ChannelType → Option ReplyFields → String → Resolution
unfolding trim
resolve_feishu_target_from_reply_target channel none missing = rejected missing
resolve_feishu_target_from_reply_target channel (some reply) missing =
    if not (channel_text channel == "feishu")
    then rejected ("record_only:unsupported_notification_channel:" ⧺ channel_text channel)
    else if not (is_channel reply.target_kind) || not (is_direct reply.reply_mode)
    then rejected (
        "record_only:unsupported_reply_target:"
        ⧺ reply_kind_text reply.target_kind
        ⧺ ":"
        ⧺ reply_mode_text reply.reply_mode)
    else resolve_ref (or_else (and_then reply.target_id (λ id. some (trim id))) "")

-- A configured Feishu target.
abbrev pub for_feishu : DeliveryBinding → Bool
for_feishu b =
    (b.channel_type == "feishu")
    && ((b.target_kind == "chat") || (b.target_kind == "user") || (b.target_kind == "message"))
    && ((b.delivery_mode == "channel_message")
        || (b.delivery_mode == "reply")
        || (b.delivery_mode == "thread_reply"))

-- A configured WeChat target.
abbrev pub for_wechat : DeliveryBinding → Bool
for_wechat b =
    (b.channel_type == "wechat") && (b.target_kind == "dm") && (b.delivery_mode == "direct")

unfoldable pub resolve_target_from_delivery_binding : Option DeliveryBinding → Resolution
resolve_target_from_delivery_binding none = rejected "record_only:no_delivery_target"
resolve_target_from_delivery_binding (some b) =
    if for_feishu b
    then resolved (feishu b.target_kind b.delivery_mode b.target_ref)
    else if for_wechat b
    then resolved (record {
      channel_type = "wechat";
      target_kind = "dm";
      target_ref = b.target_ref;
      delivery_mode = "direct";
    })
    else rejected (
        "record_only:unsupported_delivery_target:" ⧺ b.channel_type ⧺ ":" ⧺ b.target_kind ⧺ ":"
        ⧺ b.delivery_mode)
