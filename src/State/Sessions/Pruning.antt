-- ===== src/State/Sessions/Pruning.antt =====
-- Pruning, at one time and at two.
use assistant_context_router.Prelude.{
  ℕ, ◌≤◌, ◌≡◌, refl, true, Option, none, some, arith, String, Bool-cases, inl, inr,
}
use assistant_context_router.Host.{Host}
use assistant_context_router.Types.Session.{SessionProjectState}
use assistant_context_router.State.Sessions.{
  SessionFile, is_past, is_expired, unless_expired, prune, read_sessions,
}

-- What is past stays past.
is_past_mono :
    (current later : ℕ) (t : Option ℕ)
    → current ≤ later
    → is_past current t ≡ true
    → is_past later t ≡ true
is_past_mono current later none le e = e
is_past_mono current later (some t) le e = ground arith

-- Pruning earlier changes nothing of a later pruning.
pub unless_expired_twice :
    (host : Host) (current later : ℕ) (o : Option SessionProjectState)
    → current ≤ later
    → unless_expired host later (unless_expired host current o) ≡ unless_expired host later o
unless_expired_twice host current later none le = refl
unless_expired_twice host current later (some s) le =
    elim (Bool-cases (is_expired host current s)) [
      | inl e ↦ rw (e, is_past_mono current later (host.get_time s.expires_at) le e) refl
      | inr f ↦ rw f refl
    ]

pub prune_twice :
    (host : Host) (current later : ℕ) (file : SessionFile) (key : String)
    → current ≤ later
    → prune host later (some (prune host current file)) key ≡ prune host later file key
unfolding prune
prune_twice host current later file key le =
    unless_expired_twice host current later (read_sessions file key) le
