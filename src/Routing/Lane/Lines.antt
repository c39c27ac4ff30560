-- ===== src/Routing/Lane/Lines.antt =====
-- Reading back the lines that were appended.
use Prim.Native.Char.{Char, code}
use assistant_context_router.Prelude.{
  ◌≡◌, refl, sym, String, true, false, not, Option, none, some, List, ◌++◌, filter, map, nat_eq,
  or_else, Bool-cases, All, inl, inr, arith, All,
}
use assistant_context_router.Text.{is_empty, trim, ◌⧺◌, all_chars}
use assistant_context_router.Text.Laws.{text_laws, nil-append, cons-append}
use assistant_context_router.Types.Signals.{ProjectSessionEvent}
use assistant_context_router.Routing.Lane.{append_event, split_lines, parse_all, read_events}

-- What `JSON.stringify` and `JSON.parse` are documented to do with an event: its print has no line
-- break and no blank at its ends, is not empty, and is parsed back.
pub record RoundTrips (stringify : ProjectSessionEvent → String)
    (parse : String → Option ProjectSessionEvent) (e : ProjectSessionEvent) : Type 0 where
  pub one_line : all_chars (λ c. not (nat_eq c 10)) (stringify e) ≡ true
  pub trimmed : trim (stringify e) ≡ stringify e
  pub printed : is_empty (stringify e) ≡ false
  pub parsed : parse (stringify e) ≡ some e

break_line :
    (c : Char) (s : String)
    → nat_eq (code c) 10 ≡ true
    → split_lines (String.◌∷◌ c "" ⧺ s) ≡ List.◌∷◌ "" (split_lines s)
unfolding split_lines
break_line c s t = simp (text_laws, t)

-- The first line ends at the first line break.
split_lines-line :
    (w s : String)
    → all_chars (λ c. not (nat_eq c 10)) w ≡ true
    → split_lines (w ⧺ "\n" ⧺ s) ≡ List.◌∷◌ w (split_lines s)
unfolding split_lines all_chars
split_lines-line String.[] s h = rw nil-append (break_line _ s refl)
split_lines-line (String.◌∷◌ c w) s h = elim (Bool-cases (nat_eq (code c) 10)) [
  | inl t ↦ absurd (ground arith)
  | inr f ↦ rw (cons-append c w ("\n" ⧺ s), f, split_lines-line w s (rw f at h)) refl
]

module _ (stringify : ProjectSessionEvent → String)
    (parse : String → Option ProjectSessionEvent) where
  -- The text of these events' lines.
  text_of : List ProjectSessionEvent → String
  text_of List.[] = ""
  text_of (List.◌∷◌ e events) = stringify e ⧺ "\n" ⧺ text_of events

  text_of-append :
      (events : List ProjectSessionEvent) (e : ProjectSessionEvent)
      → text_of (events ++ List.◌∷◌ e List.[]) ≡ text_of events ⧺ stringify e ⧺ "\n"
  unfolding text_of
  text_of-append List.[] e = simp text_laws
  text_of-append (List.◌∷◌ x events) e = simp (text_laws, text_of-append events e)

  -- The file after these events were appended one after another to a missing file.
  pub data Written : Option String → List ProjectSessionEvent → Type 0 where
    missing : Written none List.[]
    appends :
        (raw : Option String) (events : List ProjectSessionEvent) (e : ProjectSessionEvent)
        → Written raw events
        → Written (append_event stringify e raw) (events ++ List.◌∷◌ e List.[])

  Written-text :
      {raw : Option String} {events : List ProjectSessionEvent}
      → Written raw events
      → or_else raw "" ≡ text_of events
  unfolding append_event text_of
  Written-text missing = refl
  Written-text (appends raw events e w) = rw (Written-text w) (sym (text_of-append events e))

  read-text :
      (events : List ProjectSessionEvent)
      → All (RoundTrips stringify parse) events
      → parse_all parse
          (filter (λ line. not (is_empty line)) (map trim (split_lines (text_of events))))
        ≡ some events
  unfolding parse_all text_of split_lines trim
  read-text List.[] json = refl
  read-text (List.◌∷◌ e events) json =
      rw
        (
          split_lines-line (stringify e) (text_of events) json.0.one_line,
          json.0.trimmed,
          json.0.printed,
          read-text events json.1,
          json.0.parsed,
        )
        refl

  -- A lane reads back exactly the events that were appended to it, in their order, however many, if
  -- each is printed and parsed as the JSON functions are documented to do.
  pub read_events-Written :
      {raw : Option String} {events : List ProjectSessionEvent}
      → Written raw events
      → All (RoundTrips stringify parse) events
      → read_events parse raw ≡ events
  unfolding read_events append_event
  read_events-Written missing json = refl
  read_events-Written (appends raw events e w) json =
      rw (Written-text (appends raw events e w), read-text (events ++ List.◌∷◌ e List.[]) json) refl
