-- ===== src/Feishu/Texts.antt =====
-- adapters/feishu/src/task-bug-writeback.ts: reading cells and parameters, and the texts of a report.
pub mod Bounds
use Prim.Native.Char.{code}
use Prim.Native.String.{[], ◌∷◌}
use assistant_context_router.Prelude.{
  ℕ, String, Bool, true, false, not, ◌&&◌, ◌||◌, Option, none, some, List, ◌++◌, ◌==◌, ◌<|>◌,
  if◌then◌else◌, and_then, or_else, nat_eq, ltb, any,
}
use assistant_context_router.Text.{
  is_empty, truthy, trim, is_space, text_length, slice_to, space_runs, join, ◌⧺◌,
}
use assistant_context_router.Value
use assistant_context_router.Value.{Value, Items, Fields, get, pick_string, plain_text}
use assistant_context_router.Host.{Host}
use assistant_context_router.Types.Routing.{AcceptanceMode, CompletionNotifyMode}

pub data Kind : Type 0 where
  task bug : Kind

-- A cell's text: of a string, a number or a boolean, or of the first element of a list of them.
unfoldable pub normalize_text_value : Option Value → String
unfolding plain_text
normalize_text_value none = ""
normalize_text_value (some Value.null) = ""
normalize_text_value (some (Value.bool b)) = or_else (plain_text (Value.bool b)) ""
normalize_text_value (some (Value.num n)) = n
normalize_text_value (some (Value.str s)) = trim s
normalize_text_value (some (Value.arr Value.nil)) = ""
normalize_text_value (some (Value.arr (Value.cons v vs))) = or_else (plain_text v) ""
normalize_text_value (some (Value.obj fs)) = ""

-- `value === texts[0] || value === texts[1] || …`
abbrev pub one_of : List String → String → Bool
one_of texts value = any (λ t. t == value) texts

-- A row's own setting: inherited, or a mode.
pub data Override (Mode : Type 0) : Type 0 where
  inherit : Override Mode
  mode : Mode → Override Mode

unfoldable pub normalize_acceptance_override : Option Value → Option (Override AcceptanceMode)
unfolding normalize_text_value
normalize_acceptance_override value =
    let text = normalize_text_value value in
    if is_empty text
    then none
    else if one_of (List.◌∷◌ "继承默认" (List.◌∷◌ "inherit" List.[])) text
    then some inherit
    else if one_of (List.◌∷◌ "人工验收" (List.◌∷◌ "manual_acceptance" List.[])) text
    then some (mode AcceptanceMode.manual_acceptance)
    else if one_of (List.◌∷◌ "允许Agent完结" (List.◌∷◌ "agent_can_finalize" List.[])) text
    then some (mode AcceptanceMode.agent_can_finalize)
    else none

unfoldable pub normalize_completion_notify_override :
    Option Value → Option (Override CompletionNotifyMode)
unfolding normalize_text_value
normalize_completion_notify_override value =
    let text = normalize_text_value value in
    if is_empty text
    then none
    else if one_of (List.◌∷◌ "继承默认" (List.◌∷◌ "inherit" List.[])) text
    then some inherit
    else if one_of (List.◌∷◌ "完成边界提醒" (List.◌∷◌ "dm_on_completion_boundary" List.[])) text
    then some (mode CompletionNotifyMode.dm_on_completion_boundary)
    else if one_of (List.◌∷◌ "完成边界不提醒" (List.◌∷◌ "no_dm_on_completion_boundary" List.[])) text
    then some (mode CompletionNotifyMode.no_dm_on_completion_boundary)
    else none

pub data ReviewDecision : Type 0 where
  accepted rejected : ReviewDecision

abbrev accepting_words : List String
accepting_words = List.◌∷◌ "accepted" (List.◌∷◌ "accept" (List.◌∷◌ "通过" (List.◌∷◌ "验收通过" List.[])))

abbrev rejecting_words : List String
rejecting_words =
    List.◌∷◌ "rejected"
      (List.◌∷◌ "reject" (List.◌∷◌ "reopened" (List.◌∷◌ "驳回" (List.◌∷◌ "回退" List.[]))))

unfoldable pub normalize_review_resolution_decision : Option Value → Option ReviewDecision
unfolding normalize_text_value
normalize_review_resolution_decision value =
    let text = normalize_text_value value in
    if is_empty text
    then none
    else if one_of accepting_words text
    then some accepted
    else if one_of rejecting_words text
    then some rejected
    else none

pub data FixResult : Type 0 where
  fixed wont_fix cant_rep : FixResult

abbrev pub fix_result_text : FixResult → String
fix_result_text fixed = "Fixed"
fix_result_text wont_fix = "Won't fix"
fix_result_text cant_rep = "Can't rep"

-- `s.replace(/[\u2018\u2019]/g, "'")`
unfoldable pub straight_quotes : String → String
straight_quotes [] = []
straight_quotes (c ∷ s) =
    let rest = straight_quotes s in
    if nat_eq (code c) 8216 || nat_eq (code c) 8217 then "'" ⧺ rest else c ∷ rest

abbrev is_dash : ℕ → Bool
is_dash c = nat_eq c b'_' || nat_eq c b'-'

abbrev fixed_words : List String
fixed_words = List.◌∷◌ "fixed" (List.◌∷◌ "fix" (List.◌∷◌ "修复" (List.◌∷◌ "已修复" List.[])))

abbrev wont_fix_words : List String
wont_fix_words = List.◌∷◌ "won't fix" (
    List.◌∷◌ "wont fix" (
      List.◌∷◌ "won t fix" (
        List.◌∷◌ "will not fix"
          (List.◌∷◌ "not fix" (List.◌∷◌ "no fix" (List.◌∷◌ "不修复" (List.◌∷◌ "无需修复" List.[])))))))

abbrev cant_rep_words : List String
cant_rep_words = List.◌∷◌ "can't rep" (
    List.◌∷◌ "cant rep" (
      List.◌∷◌ "can t rep" (
        List.◌∷◌ "can't reproduce" (
          List.◌∷◌ "cant reproduce" (
            List.◌∷◌ "can t reproduce" (
              List.◌∷◌ "cannot reproduce" (
                List.◌∷◌ "can not reproduce"
                  (List.◌∷◌ "not reproduced" (List.◌∷◌ "无法复现" (List.◌∷◌ "不能复现" List.[]))))))))))

unfoldable pub normalize_bug_fix_result : Host → Option String → Option FixResult
unfolding straight_quotes
normalize_bug_fix_result host value =
    let lowered = host.to_lower (or_else (and_then value (λ s. some (trim s))) "") in
    let text =
      trim (space_runs is_space false (space_runs is_dash false (straight_quotes lowered))) in
    if is_empty text
    then none
    else if one_of fixed_words text
    then some fixed
    else if one_of wont_fix_words text
    then some wont_fix
    else if one_of cant_rep_words text
    then some cant_rep
    else none

unfoldable pub truncate_text : ℕ → Option String → Option String
truncate_text max_length none = none
truncate_text max_length (some s) =
    if is_empty s
    then none
    else some (if ltb max_length (text_length s) then slice_to max_length s else s)

-- `!evidence || evidence === summary`
abbrev adds_nothing : Option String → Option String → Bool
adds_nothing summary none = true
adds_nothing none (some e) = is_empty e
adds_nothing (some s) (some e) = is_empty e || (e == s)

unfoldable pub build_execution_report : Option String → Option String → Option String
unfolding truncate_text
build_execution_report summary evidence =
    if not (truthy summary) && not (truthy evidence)
    then none
    else if adds_nothing summary evidence
    then summary <|> evidence
    else if not (truthy summary)
    then evidence
    else truncate_text 1800 (
        some (
          join "\n\n" (
            List.◌∷◌ ("执行结果：" ⧺ or_else summary "")
              (List.◌∷◌ ("验证证据：" ⧺ or_else evidence "") List.[]))))

pub record Target : Type 0 where
  pub kind : Kind
  pub record_id : String

abbrev target_of : Kind → Option String → List Target
target_of kind none = List.[]
target_of kind (some id) = List.◌∷◌ (record { kind = kind; record_id = id }) List.[]

-- `parameters?.[key]`
abbrev pub parameter : Option Fields → String → Option Value
parameter parameters key = get key (and_then parameters (λ fields. some (Value.obj fields)))

-- The task and the bug that the parameters name.
unfoldable pub resolve_targets : Option Fields → List Target
resolve_targets parameters =
    target_of Kind.task (
      pick_string (
        List.◌∷◌ (parameter parameters "task_record_id")
          (List.◌∷◌ (parameter parameters "taskRecordId") List.[])))
    ++ target_of Kind.bug (
        pick_string (
          List.◌∷◌ (parameter parameters "bug_record_id")
            (List.◌∷◌ (parameter parameters "bugRecordId") List.[])))
