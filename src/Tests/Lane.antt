-- ===== src/Tests/Lane.antt =====
-- Tests of the project session lane.
use assistant_context_router.Prelude.{
  ◌≡◌, ◌≤◌, ◌+◌, refl, Option, none, some, String, [], ◌∷◌, length,
}
use assistant_context_router.Types.Signals.{ProjectSessionEvent}
use assistant_context_router.Routing.Decision.{decide_route}
use assistant_context_router.Routing.Lane.{
  append_event, event_of, read_events, summarize, lane_file, lane_char, sanitize_project_id,
}
use assistant_context_router.Routing.Lane.Lines.{RoundTrips, Written, read_events-Written}
use assistant_context_router.Routing.Lane.Summary.{summarize-counts}
use assistant_context_router.Routing.Lane.Files.{lane_file-injective}
use assistant_context_router.Text.{all_chars, is_alnum, replace_runs, trim}
use assistant_context_router.Tests.Samples.{sample_host, lost_message, lost_envelope, sample_result}

abbrev lost_event : ProjectSessionEvent
lost_event = event_of sample_host "I" "acr" (record {
  decision = decide_route lost_message;
  envelope = lost_envelope;
  service_result = some sample_result;
  delivery_result = none;
  completion_notify_mode = none;
})

summarize-counts_example :
    ((summarize "acr" (some 1) (lost_event ∷ lost_event ∷ [])).total_events ≤ 1)
    × ((summarize "acr" (some 1) (lost_event ∷ lost_event ∷ [])).blocked_count
          + (summarize "acr" (some 1) (lost_event ∷ lost_event ∷ [])).review_request_count
          + (summarize "acr" (some 1) (lost_event ∷ lost_event ∷ [])).high_signal_completion_count
          + (summarize "acr" (some 1) (lost_event ∷ lost_event ∷ [])).service_error_count
        ≤ (summarize "acr" (some 1) (lost_event ∷ lost_event ∷ [])).total_events)
    × (length (summarize "acr" (some 1) (lost_event ∷ lost_event ∷ [])).notable_events ≤ 5)
    × (length (summarize "acr" (some 1) (lost_event ∷ lost_event ∷ [])).notable_events
        ≤ (summarize "acr" (some 1) (lost_event ∷ lost_event ∷ [])).blocked_count
          + (summarize "acr" (some 1) (lost_event ∷ lost_event ∷ [])).review_request_count
          + (summarize "acr" (some 1) (lost_event ∷ lost_event ∷ [])).high_signal_completion_count
          + (summarize "acr" (some 1) (lost_event ∷ lost_event ∷ [])).service_error_count)
summarize-counts_example = summarize-counts "acr" 0 (lost_event ∷ lost_event ∷ [])

abbrev acr : String
acr = "acr"

lane_file-injective_example : acr ≡ acr
unfolding all_chars lane_char is_alnum
lane_file-injective_example = lane_file-injective acr acr refl refl refl

-- Two projects whose ids differ share a lane file.
lane_file-collision : lane_file "a b" ≡ lane_file "a_b"
unfolding lane_file sanitize_project_id replace_runs lane_char is_alnum
lane_file-collision = refl

-- A printer and a parser that know one event.
abbrev print_event : ProjectSessionEvent → String
print_event e = "{}"

abbrev parse_event : String → Option ProjectSessionEvent
parse_event s = some lost_event

lost_event-RoundTrips : RoundTrips print_event parse_event lost_event
unfolding all_chars trim
lost_event-RoundTrips = record { one_line = refl; trimmed = refl; printed = refl; parsed = refl }

read_events-Written_example :
    read_events parse_event (append_event print_event lost_event none) ≡ lost_event ∷ []
read_events-Written_example =
    read_events-Written print_event parse_event (Written.appends none [] lost_event Written.missing)
      (lost_event-RoundTrips, tt)
