-- ===== src/Routing/Lane.antt =====
-- routing/project-session-lane.ts: the event file of a project, one JSON line for each event, and its
-- summary. `JSON.stringify` and `JSON.parse` are parameters, `none` being a line that does not parse;
-- `raw` is the text of the file, `none` if it is missing. A limit is a natural number.
pub mod Lines
pub mod Summary
pub mod Files
use Prim.Native.Char.{Char, code}
use assistant_context_router.Prelude.{
  ℕ, ◌-◌, String, Bool, true, false, not, ◌||◌, Option, none, some, List, filter, length, drop, map,
  nat_eq, if◌then◌else◌, and_then, or_else,
}
use assistant_context_router.Text.{is_empty, trim, replace_runs, is_alnum, ◌⧺◌}
use assistant_context_router.Host.{Host}
use assistant_context_router.Types.Routing.{RouteDecision, NormalizedEnvelope}
use assistant_context_router.Types.Signals.{
  SignalKind, EventDecision, EventEnvelope, ProjectSessionEvent, ProjectSessionSummary,
}
use assistant_context_router.Routing.SignalPromotion.{
  SignalInput, derive_project_session_signal_kind,
}

-- The class of `/[^a-zA-Z0-9._-]+/g`.
unfoldable pub lane_char : ℕ → Bool
unfolding is_alnum
lane_char c = is_alnum c || nat_eq c b'.' || nat_eq c b'_' || nat_eq c b'-'

unfoldable pub sanitize_project_id : String → String
unfolding lane_char replace_runs
sanitize_project_id project_id = replace_runs lane_char false project_id

-- The name of the file within the lane root.
unfoldable pub lane_file : String → String
unfolding sanitize_project_id
lane_file project_id = sanitize_project_id project_id ⧺ ".jsonl"

abbrev event_decision : RouteDecision → EventDecision
event_decision d = record {
  target_kind = d.target_kind;
  target_id = d.target_id;
  route_reason = d.route_reason;
  route_evidence = d.route_evidence;
  workflow = d.workflow;
  route_source = d.route_source;
  escalation_reason = d.escalation_reason;
  safe_fail_reason = d.safe_fail_reason;
}

abbrev event_envelope : NormalizedEnvelope → EventEnvelope
event_envelope e = record {
  source_type = e.source_type;
  channel_type = e.channel_type;
  project_ref = e.project_ref;
  resolved_project_id = e.resolved_project_id;
  action_name = e.action_name;
  parameters = e.parameters;
  trace_id = e.trace_id;
  workflow = e.workflow;
  raw_message_ref = e.raw_message_ref;
  text = e.text;
}

-- `payload`
unfoldable pub event_of : Host → String → String → SignalInput → ProjectSessionEvent
event_of host recorded_at project_id input = record {
  recorded_at = recorded_at;
  project_id = project_id;
  signal_kind = derive_project_session_signal_kind host input;
  decision = event_decision input.decision;
  envelope = event_envelope input.envelope;
  service_result = input.service_result;
  delivery_result = input.delivery_result;
}

-- The file after an event was appended.
unfoldable pub append_event :
    (ProjectSessionEvent → String) → ProjectSessionEvent → Option String → Option String
append_event stringify event raw = some (or_else raw "" ⧺ stringify event ⧺ "\n")

-- One more character on the first line.
push_char : Char → List String → List String
push_char c List.[] = List.◌∷◌ (String.◌∷◌ c String.[]) List.[]
push_char c (List.◌∷◌ line lines) = List.◌∷◌ (String.◌∷◌ c line) lines

-- `raw.split("\n")`
unfoldable pub split_lines : String → List String
unfolding push_char
split_lines String.[] = List.◌∷◌ String.[] List.[]
split_lines (String.◌∷◌ c s) =
    let rest = split_lines s in
    if nat_eq (code c) 10 then List.◌∷◌ String.[] rest else push_char c rest

-- The parsed lines, or nothing if one of them does not parse.
unfoldable pub parse_all :
    (String → Option ProjectSessionEvent) → List String → Option (List ProjectSessionEvent)
parse_all parse List.[] = some List.[]
parse_all parse (List.◌∷◌ line lines) =
    let rest = parse_all parse lines in
    and_then (parse line) (λ event. and_then rest (λ events. some (List.◌∷◌ event events)))

-- `readProjectSessionEvents`; an error gives the empty list.
unfoldable pub read_events :
    (String → Option ProjectSessionEvent) → Option String → List ProjectSessionEvent
unfolding split_lines parse_all
read_events parse none = List.[]
read_events parse (some raw) =
    or_else (parse_all parse (filter (λ line. not (is_empty line)) (map trim (split_lines raw))))
      List.[]

-- `xs.slice(-n)`: the last n elements, and all of them for n = 0, since -0 is 0.
unfoldable pub slice_last {ℓ} : {A : Type ℓ} → ℕ → List A → List A
slice_last n xs = if nat_eq n 0 then xs else drop (length xs - n) xs

-- The last element.
unfoldable pub last_of {ℓ} : {A : Type ℓ} → List A → Option A
last_of List.[] = none
last_of (List.◌∷◌ x List.[]) = some x
last_of (List.◌∷◌ x (List.◌∷◌ y ys)) = last_of (List.◌∷◌ y ys)

abbrev pub is_blocked : SignalKind → Bool
is_blocked SignalKind.blocked = true
is_blocked SignalKind.none = false
is_blocked SignalKind.review_request = false
is_blocked SignalKind.high_signal_completion = false
is_blocked SignalKind.service_error = false

abbrev pub is_review : SignalKind → Bool
is_review SignalKind.review_request = true
is_review SignalKind.none = false
is_review SignalKind.blocked = false
is_review SignalKind.high_signal_completion = false
is_review SignalKind.service_error = false

abbrev pub is_completion : SignalKind → Bool
is_completion SignalKind.high_signal_completion = true
is_completion SignalKind.none = false
is_completion SignalKind.blocked = false
is_completion SignalKind.review_request = false
is_completion SignalKind.service_error = false

abbrev pub is_service_error : SignalKind → Bool
is_service_error SignalKind.service_error = true
is_service_error SignalKind.none = false
is_service_error SignalKind.blocked = false
is_service_error SignalKind.review_request = false
is_service_error SignalKind.high_signal_completion = false

abbrev pub is_notable : SignalKind → Bool
is_notable SignalKind.none = false
is_notable SignalKind.blocked = true
is_notable SignalKind.review_request = true
is_notable SignalKind.high_signal_completion = true
is_notable SignalKind.service_error = true

-- How many of the events have a signal that passes the test.
unfoldable pub count_signal : (SignalKind → Bool) → List ProjectSessionEvent → ℕ
count_signal test events = length (filter (λ e. test e.signal_kind) events)

-- `summarizeProjectSessionEvents`, from the events that were read.
unfoldable pub summarize : String → Option ℕ → List ProjectSessionEvent → ProjectSessionSummary
summarize project_id limit events =
    let latest_events = slice_last (or_else limit 20) events in
    record {
      project_id = project_id;
      total_events = length latest_events;
      blocked_count = count_signal is_blocked latest_events;
      review_request_count = count_signal is_review latest_events;
      high_signal_completion_count = count_signal is_completion latest_events;
      service_error_count = count_signal is_service_error latest_events;
      latest_signal =
          or_else (and_then (last_of latest_events) (λ e. some e.signal_kind)) SignalKind.none;
      latest_event_at = and_then (last_of latest_events) (λ e. some e.recorded_at);
      notable_events = slice_last 5 (filter (λ e. is_notable e.signal_kind) latest_events);
    }
