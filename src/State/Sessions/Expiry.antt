-- ===== src/State/Sessions/Expiry.antt =====
-- How long what is written is read back.
use assistant_context_router.Prelude.{
  ℕ, ◌+◌, ◌≡◌, refl, ap, ◌∙◌, not, none, some, leb, ltb, arith, String, if◌then◌else◌, eq_refl,
  Bool-cases, inl, inr, or_else,
}
use assistant_context_router.Host.{Host, ReadsDates}
use assistant_context_router.Types.Session.{SessionProjectState, SessionProjectStatePatch}
use assistant_context_router.State.Sessions.{
  SessionFile, unless_expired, prune, get, set, invalidate, is_expired, is_past, next_state,
  invalidated_state, no_patch,
}

-- A state that expires at a time is expired exactly after it.
is_expired_at :
    (host : Host) (dates : ReadsDates host) (last later : ℕ) (s : SessionProjectState)
    → s.expires_at ≡ host.to_iso_string last
    → is_expired host later s ≡ not (leb later last)
is_expired_at host dates last later s e =
    ap (λ text. is_past later (host.get_time text)) e ∙ ap (is_past later) (dates last) ∙ after_not
  where
    after_not : ltb last later ≡ not (leb later last)
    after_not = ground arith

-- So it is there exactly until then.
lifetime :
    (host : Host) (dates : ReadsDates host) (last later : ℕ) (s : SessionProjectState)
    → s.expires_at ≡ host.to_iso_string last
    → unless_expired host later (some s) ≡ (if leb later last then some s else none)
lifetime host dates last later s e = elim (Bool-cases (leb later last)) [
  | inl t ↦ rw (is_expired_at host dates last later s e, t) refl
  | inr f ↦ rw (is_expired_at host dates last later s e, f) refl
]

module _ (host : Host) (dates : ReadsDates host) (ttl_ms current later : ℕ) (key : String)
    (file : SessionFile) where
  -- On a host that reads the dates it prints, what `set` writes without an expiry of its own is read
  -- back by a `get` exactly until the lifetime is over.
  pub get-set :
      (patch : SessionProjectStatePatch)
      → patch.expires_at ≡ none
      → (get host later key (set host ttl_ms current key patch file).0).1 ≡ (
          if leb later (current + ttl_ms)
          then some (set host ttl_ms current key patch file).1
          else none)
  unfolding get set prune next_state
  get-set patch e = rw (eq_refl key) (
      lifetime host dates (current + ttl_ms) later
        (next_state host ttl_ms current patch (prune host current file key))
        (ap (λ x. or_else x (host.to_iso_string (current + ttl_ms))) e))

  -- On a host that reads the dates it prints, `invalidate` without a patch leaves a state with no
  -- project and nothing pending, which a `get` reads back exactly until the lifetime is over.
  pub get-invalidate :
      let answer = (invalidate host ttl_ms current key none file).1 in
      (answer.current_project_id ≡ none)
      × (answer.pending_save_mode ≡ none)
      × (answer.pending_save_draft ≡ none)
      × (answer.pending_semantic_execution ≡ none)
      × ((get host later key (invalidate host ttl_ms current key none file).0).1
          ≡ (if leb later (current + ttl_ms) then some answer else none))
  unfolding get invalidate prune invalidated_state
  get-invalidate = (
    refl,
    refl,
    refl,
    refl,
    rw (eq_refl key) (
        lifetime host dates (current + ttl_ms) later
          (invalidated_state host ttl_ms current no_patch (prune host current file key)) refl),
  )
