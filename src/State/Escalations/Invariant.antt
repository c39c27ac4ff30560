-- ===== src/State/Escalations/Invariant.antt =====
-- The invariant of the escalation file.
use assistant_context_router.Prelude.{
  String, ◌≡◌, refl, sym, Option, none, some, List, [], ◌∷◌, ◌++◌, ◌==◌, eq_iff, All, All-append,
  Bool-cases, inl, inr, subst, ◌∙◌,
}
use assistant_context_router.Keyed.{
  find_by, find_by-key, replace_by, IsDistinct, IsDistinct-replace_by, IsDistinct-push,
  All-replace_by, All-find_by,
}
use assistant_context_router.Types.Signals.{EscalationSeed, EscalationRecord}
use assistant_context_router.Routing.SignalRecords.{derive_escalation_dedup_key}
use assistant_context_router.State.Escalations.{
  EscalationFile, EscalationState, upsert_open, resolve, updated_record, created_record,
  resolved_record, read_state, escalation_id_of, set_session, upsert_found, resolve_found,
}

-- A record stands under its own session key, and its id is the dedup key of its own fields.
abbrev pub IsFiled : String → EscalationRecord → Type 0
IsFiled key r =
    (r.canonical_session_key ≡ key) × (r.escalation_id ≡ derive_escalation_dedup_key r.seed)

-- In every session the records are filed under it, and no two share an id.
pub record IsConsistent (file : EscalationFile) : Type 0 where
  pub filed : (key : String) → All (IsFiled key) ((read_state file).sessions key)
  pub distinct : (key : String) → IsDistinct escalation_id_of ((read_state file).sessions key)

IsConsistent-missing : IsConsistent none
IsConsistent-missing = record { filed = λ key. tt; distinct = λ key. tt }

-- What holds of the written list and of every old list holds of every new list.
session_keeps :
    (P : String → List EscalationRecord → Type 0) (state : EscalationState) (key : String)
    (records : List EscalationRecord)
    → P key records
    → ((k : String) → P k (state.sessions k))
    → (k : String) → P k ((set_session key records state).sessions k)
session_keeps P state key records new old k = elim (Bool-cases (key == k)) [
  | inl t ↦ rw t (subst (λ q. P q records) ((eq_iff key k).0 t) new)
  | inr f ↦ rw f (old k)
]

-- The dedup key does not read the resolution.
dedup_key-resolution :
    (seed : EscalationSeed) (resolution : Option String)
    → derive_escalation_dedup_key (record seed { resolution = resolution })
      ≡ derive_escalation_dedup_key seed
unfolding derive_escalation_dedup_key
dedup_key-resolution seed resolution = refl

upsert_found-IsConsistent :
    (timestamp : String) (seed : EscalationSeed) (file : EscalationFile)
    (found : Option EscalationRecord)
    → find_by escalation_id_of
        (derive_escalation_dedup_key seed)
        ((read_state file).sessions seed.canonical_session_key)
      ≡ found
    → IsConsistent file
    → IsConsistent
        (upsert_found timestamp seed (read_state file) (derive_escalation_dedup_key seed) found).0
unfolding upsert_open derive_escalation_dedup_key
upsert_found-IsConsistent timestamp seed file none e h =
    let key = seed.canonical_session_key in
    let id = derive_escalation_dedup_key seed in
    let new = created_record id timestamp seed in
    let records = (read_state file).sessions key in
    record {
      filed =
          session_keeps (λ k. All (IsFiled k)) (read_state file) key (records ++ new ∷ [])
            (All-append (IsFiled key) records (new ∷ []) (h.filed key) ((refl, refl), tt)) h.filed;
      distinct =
          session_keeps (λ k. IsDistinct escalation_id_of) (read_state file) key
            (records ++ new ∷ []) (IsDistinct-push escalation_id_of new records e (h.distinct key))
            h.distinct;
    }
upsert_found-IsConsistent timestamp seed file (some existing) e h =
    let key = seed.canonical_session_key in
    let id = derive_escalation_dedup_key seed in
    let new = updated_record id timestamp seed existing in
    let records = (read_state file).sessions key in
    record {
      filed =
          session_keeps (λ k. All (IsFiled k)) (read_state file) key
            (replace_by escalation_id_of id new records)
            (All-replace_by escalation_id_of (IsFiled key) id new records (refl, refl)
              (h.filed key))
            h.filed;
      distinct =
          session_keeps (λ k. IsDistinct escalation_id_of) (read_state file) key
            (replace_by escalation_id_of id new records)
            (IsDistinct-replace_by escalation_id_of id new records refl (h.distinct key))
            h.distinct;
    }

resolve_found-IsConsistent :
    (timestamp key id : String) (resolution : Option String) (file : EscalationFile)
    (found : Option EscalationRecord)
    → find_by escalation_id_of id ((read_state file).sessions key) ≡ found
    → IsConsistent file
    → IsConsistent (resolve_found timestamp key id resolution file found).0
unfolding resolve
resolve_found-IsConsistent timestamp key id resolution file none e h = h
resolve_found-IsConsistent timestamp key id resolution file (some existing) e h =
    let new = resolved_record timestamp resolution existing in
    let records = (read_state file).sessions key in
    let was = All-find_by escalation_id_of (IsFiled key) id records (h.filed key) e in
    record {
      filed =
          session_keeps (λ k. All (IsFiled k)) (read_state file) key
            (replace_by escalation_id_of id new records)
            (All-replace_by escalation_id_of (IsFiled key) id new records
              (was.0, was.1 ∙ sym (dedup_key-resolution existing.seed resolution)) (h.filed key))
            h.filed;
      distinct =
          session_keeps (λ k. IsDistinct escalation_id_of) (read_state file) key
            (replace_by escalation_id_of id new records)
            (IsDistinct-replace_by escalation_id_of id new records
              (find_by-key escalation_id_of id records e) (h.distinct key))
            h.distinct;
    }

-- One call of the store that writes.
pub data Step : EscalationFile → EscalationFile → Type 0 where
  upserts :
      (file : EscalationFile) (timestamp : String) (seed : EscalationSeed)
      → Step file (upsert_open timestamp seed file).0
  resolves :
      (file : EscalationFile) (timestamp key id : String) (resolution : Option String)
      → Step file (resolve timestamp key id resolution file).0

-- Any sequence of calls, in the order in which the lock lets them run.
pub data Reach (start : EscalationFile) : EscalationFile → Type 0 where
  here : Reach start start
  next : {file after : EscalationFile} → Reach start file → Step file after → Reach start after

Step-IsConsistent :
    {file after : EscalationFile} → Step file after → IsConsistent file → IsConsistent after
unfolding upsert_open resolve
Step-IsConsistent (upserts file timestamp seed) h =
    upsert_found-IsConsistent timestamp seed file _ refl h
Step-IsConsistent (resolves file timestamp key id resolution) h =
    resolve_found-IsConsistent timestamp key id resolution file _ refl h

-- From a missing file, whatever calls are made in whatever order, every record stands under its own
-- session with the dedup key of its own fields as its id, and no session has an id twice.
pub Reach-IsConsistent : {file : EscalationFile} → Reach none file → IsConsistent file
Reach-IsConsistent here = IsConsistent-missing
Reach-IsConsistent (next r s) = Step-IsConsistent s (Reach-IsConsistent r)
