-- ===== src/State/Sessions/Isolation.antt =====
-- What the methods leave alone: the other sessions, and what no later call could read.
use assistant_context_router.Prelude.{ℕ, ◌≤◌, ◌≡◌, false, Option, some, String, ◌==◌, Bool}
use assistant_context_router.Host.{Host}
use assistant_context_router.Types.Session.{SessionProjectState, SessionProjectStatePatch}
use assistant_context_router.State.Sessions.{
  SessionFile, prune, get, set, clear, invalidate, cleanup, put,
}
use assistant_context_router.State.Sessions.Pruning.{prune_twice}

-- The calls of the store, but for `get`.
pub data Call : Type 0 where
  sets : ℕ → String → SessionProjectStatePatch → Call
  clears : String → Call
  invalidates : ℕ → String → Option SessionProjectStatePatch → Call
  cleans : Call
  gets : String → Call

-- The file after a call, by whichever method it is of.
unfoldable pub run : Host → ℕ → Call → SessionFile → SessionFile
run host current (sets ttl_ms key patch) file = (set host ttl_ms current key patch file).0
run host current (clears key) file = clear host current key file
run host current (invalidates ttl_ms key patch) file =
    (invalidate host ttl_ms current key patch file).0
run host current cleans file = cleanup host current file
run host current (gets key) file = (get host current key file).0

-- Whether a call writes the state of this session.
abbrev pub writes : Call → String → Bool
writes (sets ttl_ms key patch) k = key == k
writes (clears key) k = key == k
writes (invalidates ttl_ms key patch) k = key == k
writes cleans k = false
writes (gets key) k = false

module _ (host : Host) (current later : ℕ) (file : SessionFile) (k : String) where
  prune-put :
      (key : String) (state : Option SessionProjectState)
      → current ≤ later
      → (key == k) ≡ false
      → prune host later (some (put key state (prune host current file))) k
        ≡ prune host later file k
  unfolding prune
  prune-put key state le f = rw f (prune_twice host current later file k le)

  -- A call changes nothing of what a later `get` reads of a session that the call does not write,
  -- whatever the file and whichever the call: pruning shows nothing to any reader.
  pub get-run :
      (call : Call)
      → current ≤ later
      → writes call k ≡ false
      → (get host later k (run host current call file)).1 ≡ (get host later k file).1
  unfolding run get set clear invalidate cleanup
  get-run (sets ttl_ms key patch) le f = prune-put key _ le f
  get-run (clears key) le f = prune-put key _ le f
  get-run (invalidates ttl_ms key patch) le f = prune-put key _ le f
  get-run cleans le f = prune_twice host current later file k le
  get-run (gets key) le f = prune_twice host current later file k le
