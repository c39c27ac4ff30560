-- ===== src/Routing/Lane/Summary.antt =====
-- The counts of a lane's summary.
use Prim.Native.Nat.{min}
use assistant_context_router.Prelude.{
  ℕ, suc, ◌+◌, ◌-◌, ◌≤◌, ◌≡◌, refl, String, some, List, [], ◌∷◌, filter, length, length-drop,
  length-filter-le, nat_eq, if◌then◌else◌, arith, Bool, true, false, Bool-cases, inl, inr,
}
use assistant_context_router.Types.Signals.{SignalKind, ProjectSessionEvent}
use assistant_context_router.Routing.Lane.{
  slice_last, count_signal, summarize, is_blocked, is_review, is_completion, is_service_error,
  is_notable,
}

-- How many elements are left of a slice.
length-slice_last {ℓ} :
    {A : Type ℓ} (n : ℕ) (xs : List A)
    → length (slice_last (suc n) xs) ≡ length xs - (length xs - suc n)
unfolding slice_last
length-slice_last n xs = rw (suc-ne n) (length-drop (length xs - suc n) xs)
  where
    suc-ne : (m : ℕ) → nat_eq (suc m) 0 ≡ false
    suc-ne m = ground arith

abbrev bit : Bool → ℕ
bit true = 1
bit false = 0

count-cons :
    (test : SignalKind → Bool) (e : ProjectSessionEvent) (events : List ProjectSessionEvent)
    → count_signal test (e ∷ events) ≡ bit (test e.signal_kind) + count_signal test events
unfolding count_signal
count-cons test e events = elim (Bool-cases (test e.signal_kind)) [
  | inl t ↦ rw t (omega arith)
  | inr f ↦ rw f (omega arith)
]

one_signal :
    (k : SignalKind)
    → bit (is_notable k)
      ≡ bit (is_blocked k) + bit (is_review k) + bit (is_completion k) + bit (is_service_error k)
one_signal SignalKind.none = refl
one_signal SignalKind.blocked = refl
one_signal SignalKind.review_request = refl
one_signal SignalKind.high_signal_completion = refl
one_signal SignalKind.service_error = refl

-- Every notable event has exactly one of the four signals.
count-notable :
    (events : List ProjectSessionEvent)
    → count_signal is_notable events
      ≡ count_signal is_blocked events
        + count_signal is_review events
        + count_signal is_completion events
        + count_signal is_service_error events
unfolding count_signal
count-notable [] = refl
count-notable (e ∷ events) =
    let n = count-cons is_notable e events in
    let b = count-cons is_blocked e events in
    let r = count-cons is_review e events in
    let c = count-cons is_completion e events in
    let s = count-cons is_service_error e events in
    let one = one_signal e.signal_kind in let rest = count-notable events in omega arith

notable-le : (events : List ProjectSessionEvent) → count_signal is_notable events ≤ length events
unfolding count_signal
notable-le events = length-filter-le (λ e. is_notable e.signal_kind) events

listed-le :
    (n : ℕ) (events : List ProjectSessionEvent)
    → let listed = length (slice_last (suc n) (filter (λ e. is_notable e.signal_kind) events)) in
      (listed ≤ suc n) × (listed ≤ count_signal is_notable events)
unfolding count_signal
listed-le n events =
    let shown = length-slice_last n (filter (λ e. is_notable e.signal_kind) events) in
    (omega arith, omega arith)

-- With a limit that is not 0, no more events than the limit are summarised; the counts of the four
-- signals add up to no more than the events summarised; and at most five events are listed as
-- notable, no more than the four counts add up to.
pub summarize-counts :
    (project_id : String) (limit : ℕ) (events : List ProjectSessionEvent)
    → let s = summarize project_id (some (suc limit)) events in
      (s.total_events ≤ suc limit)
      × (s.blocked_count + s.review_request_count + s.high_signal_completion_count
            + s.service_error_count
          ≤ s.total_events)
      × (length s.notable_events ≤ 5)
      × (length s.notable_events
          ≤ s.blocked_count + s.review_request_count + s.high_signal_completion_count
            + s.service_error_count)
unfolding summarize
summarize-counts project_id limit events =
    let latest = slice_last (suc limit) events in
    let total = length-slice_last limit events in
    let four = count-notable latest in
    let few = notable-le latest in
    let shown = listed-le 4 latest in (omega arith, omega arith, shown.0, omega arith)

-- A summary is of the last events up to the limit, and of every event of the lane if the limit is 0.
pub summarize-total :
    (project_id : String) (limit : ℕ) (events : List ProjectSessionEvent)
    → (summarize project_id (some limit) events).total_events
      ≡ (if nat_eq limit 0 then length events else min limit (length events))
unfolding summarize slice_last
summarize-total project_id limit events = elim (Bool-cases (nat_eq limit 0)) [
  | inl z ↦ rw z refl
  | inr p ↦ rw (p, length-drop (length events - limit) events) (ground arith)
]
