-- ===== src/State/Sessions.antt =====
-- state/session-project-store.ts: the state of each session, which expires. The lock serialises the
-- calls, so each method is a function from the state file to the state file; `none` is a file that is
-- missing or does not parse. Times are in milliseconds. The metadata adapter, which replaces the
-- store where a host gives one, is outside the sources.
pub mod Pruning
pub mod Expiry
pub mod Isolation
pub mod Focus
use assistant_context_router.Prelude.{
  ℕ, ◌+◌, String, Bool, true, false, Option, none, some, ◌==◌, ◌<|>◌, if◌then◌else◌, and_then,
  or_else, ltb,
}
use assistant_context_router.Host.{Host}
use assistant_context_router.Types.Routing.{SelectedVia}
use assistant_context_router.Types.Session.{SessionProjectState, SessionProjectStatePatch}

abbrev pub Sessions : Type 0
Sessions = String → Option SessionProjectState

abbrev pub SessionFile : Type 0
SessionFile = Option Sessions

abbrev pub read_sessions : SessionFile → Sessions
read_sessions file = or_else file (λ key. none)

-- `time < current`, which is false for NaN.
abbrev pub is_past : ℕ → Option ℕ → Bool
is_past current none = false
is_past current (some t) = ltb t current

-- `new Date(state.expires_at).getTime() < current.getTime()`
abbrev pub is_expired : Host → ℕ → SessionProjectState → Bool
is_expired host current state = is_past current (host.get_time state.expires_at)

abbrev pub unless_expired : Host → ℕ → Option SessionProjectState → Option SessionProjectState
unless_expired host current none = none
unless_expired host current (some state) =
    if is_expired host current state then none else some state

-- `pruneExpired` on what was read from the file.
unfoldable pub prune : Host → ℕ → SessionFile → Sessions
prune host current file key = unless_expired host current (read_sessions file key)

abbrev pub put : String → Option SessionProjectState → Sessions → Sessions
put key state sessions k = if key == k then state else sessions k

unfoldable pub get : Host → ℕ → String → SessionFile → SessionFile × Option SessionProjectState
get host current key file = (some (prune host current file), prune host current file key)

-- `patch.field !== undefined ? patch.field : before`
abbrev pub patched : {A : Type 0} → Option (Option A) → Option A → Option A
patched field before = or_else field before

-- `patch.updated_at ?? current.toISOString()`
abbrev pub updated_at_of : Host → ℕ → SessionProjectStatePatch → String
updated_at_of host current patch = or_else patch.updated_at (host.to_iso_string current)

-- `patch.expires_at ?? new Date(current.getTime() + ttlMs).toISOString()`
abbrev pub expires_at_of : Host → ℕ → ℕ → SessionProjectStatePatch → String
expires_at_of host ttl_ms current patch =
    or_else patch.expires_at (host.to_iso_string (current + ttl_ms))

-- The state that `set` writes over an existing one.
unfoldable pub next_state :
    Host → ℕ → ℕ → SessionProjectStatePatch → Option SessionProjectState → SessionProjectState
next_state host ttl_ms current patch existing = record {
  current_project_id =
      or_else patch.current_project_id none <|> and_then existing (λ s. s.current_project_id);
  selected_at =
      or_else (patch.selected_at <|> and_then existing (λ s. some s.selected_at))
        (updated_at_of host current patch);
  selected_via =
      or_else (patch.selected_via <|> and_then existing (λ s. some s.selected_via))
        SelectedVia.manual;
  current_workflow = patched patch.current_workflow (and_then existing (λ s. s.current_workflow));
  updated_at = updated_at_of host current patch;
  expires_at = expires_at_of host ttl_ms current patch;
  last_route_trace = patched patch.last_route_trace (and_then existing (λ s. s.last_route_trace));
  pending_save_mode =
      patched patch.pending_save_mode (and_then existing (λ s. s.pending_save_mode));
  pending_save_draft =
      patched patch.pending_save_draft (and_then existing (λ s. s.pending_save_draft));
  pending_semantic_execution =
      patched patch.pending_semantic_execution
        (and_then existing (λ s. s.pending_semantic_execution));
}

unfoldable pub set :
    Host
    → ℕ
    → ℕ
    → String
    → SessionProjectStatePatch
    → SessionFile
    → SessionFile × SessionProjectState
set host ttl_ms current key patch file =
    let sessions = prune host current file in
    let next = next_state host ttl_ms current patch (sessions key) in
    (some (put key (some next) sessions), next)

unfoldable pub clear : Host → ℕ → String → SessionFile → SessionFile
clear host current key file = some (put key none (prune host current file))

-- A patch that defines nothing, which is what `patch?.field` reads of an absent one.
abbrev pub no_patch : SessionProjectStatePatch
no_patch = record {
  current_project_id = none;
  selected_at = none;
  selected_via = none;
  current_workflow = none;
  updated_at = none;
  expires_at = none;
  last_route_trace = none;
  pending_save_mode = none;
  pending_save_draft = none;
  pending_semantic_execution = none;
}

-- The state that `invalidate` writes over an existing one.
unfoldable pub invalidated_state :
    Host → ℕ → ℕ → SessionProjectStatePatch → Option SessionProjectState → SessionProjectState
invalidated_state host ttl_ms current patch existing = record {
  current_project_id = none;
  selected_at =
      or_else (patch.selected_at <|> and_then existing (λ s. some s.selected_at))
        (updated_at_of host current patch);
  selected_via =
      or_else (patch.selected_via <|> and_then existing (λ s. some s.selected_via))
        SelectedVia.route;
  current_workflow = patched patch.current_workflow (and_then existing (λ s. s.current_workflow));
  updated_at = updated_at_of host current patch;
  expires_at = expires_at_of host ttl_ms current patch;
  last_route_trace = patched patch.last_route_trace (and_then existing (λ s. s.last_route_trace));
  pending_save_mode = patched patch.pending_save_mode none;
  pending_save_draft = patched patch.pending_save_draft none;
  pending_semantic_execution = patched patch.pending_semantic_execution none;
}

unfoldable pub invalidate :
    Host
    → ℕ
    → ℕ
    → String
    → Option SessionProjectStatePatch
    → SessionFile
    → SessionFile × SessionProjectState
invalidate host ttl_ms current key patch file =
    let sessions = prune host current file in
    let next = invalidated_state host ttl_ms current (or_else patch no_patch) (sessions key) in
    (some (put key (some next) sessions), next)

unfoldable pub cleanup : Host → ℕ → SessionFile → SessionFile
cleanup host current file = some (prune host current file)
