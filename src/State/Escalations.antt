-- ===== src/State/Escalations.antt =====
-- state/main-session-escalation-store.ts. The lock serialises the calls, so each method is a function
-- from the state file to the state file; `none` is a file that is missing or does not parse.
pub mod Effects
pub mod Invariant
pub mod Listing
use assistant_context_router.Prelude.{
  String, Bool, true, false, not, ◌||◌, Option, none, some, List, [], ◌∷◌, ◌++◌, filter, ◌==◌,
  if◌then◌else◌, or_else,
}
use assistant_context_router.Text.{truthy}
use assistant_context_router.Host.{Host, not_after}
use assistant_context_router.Sorting.{sort}
use assistant_context_router.Keyed.{find_by, replace_by}
use assistant_context_router.Types.Signals.{EscalationSeed, EscalationRecord, EscalationStatus}
use assistant_context_router.Routing.SignalRecords.{derive_escalation_dedup_key}

-- `sessions[key]`, where a missing key reads as the empty list.
pub record EscalationState : Type 0 where
  pub sessions : String → List EscalationRecord

abbrev pub EscalationFile : Type 0
EscalationFile = Option EscalationState

abbrev pub empty_state : EscalationState
empty_state = record { sessions = λ key. [] }

abbrev pub read_state : EscalationFile → EscalationState
read_state file = or_else file empty_state

-- `state.sessions[key] = records`
abbrev pub set_session : String → List EscalationRecord → EscalationState → EscalationState
set_session key records state = record {
  sessions = λ k. if key == k then records else state.sessions k;
}

abbrev pub is_resolved : EscalationStatus → Bool
is_resolved EscalationStatus.resolved = true
is_resolved EscalationStatus.open_ = false
is_resolved EscalationStatus.acknowledged = false

-- The record that an `upsertOpen` writes over an existing one.
unfoldable pub updated_record :
    String → String → EscalationSeed → EscalationRecord → EscalationRecord
updated_record id timestamp seed existing = record {
  seed = record seed {
    resolution = if is_resolved existing.status then none else existing.resolution;
  };
  escalation_id = id;
  created_at = existing.created_at;
  updated_at = timestamp;
  status = if is_resolved existing.status then EscalationStatus.open_ else existing.status;
}

unfoldable pub created_record : String → String → EscalationSeed → EscalationRecord
created_record id timestamp seed = record {
  seed = seed;
  escalation_id = id;
  created_at = timestamp;
  updated_at = timestamp;
  status = EscalationStatus.open_;
}

abbrev pub escalation_id_of : EscalationRecord → String
escalation_id_of r = r.escalation_id

-- The write of an `upsertOpen`, by what `findIndex` found under the id.
upsert_found :
    String
    → EscalationSeed
    → EscalationState
    → String
    → Option EscalationRecord
    → EscalationFile × EscalationRecord
unfolding updated_record created_record
upsert_found timestamp seed state id (some existing) = (
  some (
      set_session seed.canonical_session_key
        (replace_by escalation_id_of id (updated_record id timestamp seed existing)
          (state.sessions seed.canonical_session_key))
        state),
  updated_record id timestamp seed existing,
)
upsert_found timestamp seed state id none = (
  some (
      set_session seed.canonical_session_key
        (state.sessions seed.canonical_session_key ++ created_record id timestamp seed ∷ []) state),
  created_record id timestamp seed,
)

-- `upsertOpen`; `timestamp` is `now().toISOString()`.
unfoldable pub upsert_open :
    String → EscalationSeed → EscalationFile → EscalationFile × EscalationRecord
unfolding upsert_found
upsert_open timestamp seed file =
    let id = derive_escalation_dedup_key seed in
    upsert_found timestamp seed (read_state file) id
      (find_by escalation_id_of id ((read_state file).sessions seed.canonical_session_key))

unfoldable pub resolved_record : String → Option String → EscalationRecord → EscalationRecord
resolved_record timestamp resolution existing = record {
  seed = record (existing.seed) { resolution = resolution };
  escalation_id = existing.escalation_id;
  created_at = existing.created_at;
  updated_at = timestamp;
  status = EscalationStatus.resolved;
}

-- The write of a `resolve`, by what `findIndex` found under the id.
resolve_found :
    String
    → String
    → String
    → Option String
    → EscalationFile
    → Option EscalationRecord
    → EscalationFile × Option EscalationRecord
unfolding resolved_record
resolve_found timestamp key id resolution file none = (file, none)
resolve_found timestamp key id resolution file (some existing) = (
  some (
      set_session key
        (replace_by escalation_id_of id (resolved_record timestamp resolution existing)
          ((read_state file).sessions key))
        (read_state file)),
  some (resolved_record timestamp resolution existing),
)

-- `resolve`; an unknown id writes nothing and answers null.
unfoldable pub resolve :
    String
    → String
    → String
    → Option String
    → EscalationFile
    → EscalationFile × Option EscalationRecord
unfolding resolve_found
resolve timestamp key id resolution file =
    resolve_found timestamp key id resolution file
      (find_by escalation_id_of id ((read_state file).sessions key))

abbrev pub is_open : EscalationRecord → Bool
is_open r = not (is_resolved r.status)

-- `!input.projectId || record.project_id === input.projectId`
abbrev pub of_project : Option String → EscalationRecord → Bool
of_project project_id r = not (truthy project_id) || (r.project_id == or_else project_id "")

abbrev pub updated_before : Host → EscalationRecord → EscalationRecord → Bool
updated_before host l r = not_after host l.updated_at r.updated_at

unfoldable pub list_open : Host → String → Option String → EscalationFile → List EscalationRecord
list_open host key project_id file =
    sort (updated_before host)
      (filter (of_project project_id) (filter is_open ((read_state file).sessions key)))

-- The record of a session with an id.
unfoldable pub record_at : String → String → EscalationFile → Option EscalationRecord
record_at key id file = find_by escalation_id_of id ((read_state file).sessions key)
