-- ===== src/State/Escalations/Effects.antt =====
-- What the methods of the escalation store write, and what they leave alone.
use assistant_context_router.Prelude.{
  String, ◌≡◌, refl, ◌&&◌, Option, none, some, List, [], ◌∷◌, ◌++◌, ◌==◌, eq_iff, if◌then◌else◌,
  Bool-cases, inl, inr, ◌∙◌, ap,
}
use assistant_context_router.Keyed.{
  find_by, find_by-key, find_by-replace_by, find_by-push, replace_by,
}
use assistant_context_router.Types.Signals.{EscalationSeed, EscalationRecord, EscalationStatus}
use assistant_context_router.Routing.SignalRecords.{derive_escalation_dedup_key}
use assistant_context_router.State.Escalations.{
  EscalationFile, upsert_open, resolve, record_at, updated_record, created_record, resolved_record,
  read_state, escalation_id_of, set_session, upsert_found, resolve_found, EscalationState,
  is_resolved,
}

-- A session whose list changed at one id only.
session_write :
    (state : EscalationState) (key k j id : String) (v : EscalationRecord)
    (records : List EscalationRecord)
    → find_by escalation_id_of j records
      ≡ (if id == j then some v else find_by escalation_id_of j (state.sessions key))
    → find_by escalation_id_of j ((set_session key records state).sessions k)
      ≡ (if (key == k) && (id == j) then some v else find_by escalation_id_of j (state.sessions k))
session_write state key k j id v records h = elim (Bool-cases (key == k)) [
  | inl t ↦ rw t (
      h
      ∙ ap (λ q. if id == j then some v else find_by escalation_id_of j (state.sessions q))
          ((eq_iff key k).0 t))
  | inr f ↦ rw f refl
]

-- An id that a session does not have is found nowhere under that session and id.
unknown_id :
    (file : EscalationFile) (key k j id : String)
    → find_by escalation_id_of id ((read_state file).sessions key) ≡ none
    → record_at k j file ≡ (if (key == k) && (id == j) then none else record_at k j file)
unfolding record_at
unknown_id file key k j id e = elim (Bool-cases (key == k)) [
  | inl t ↦ elim (Bool-cases (id == j)) [
    | inl u ↦ rw (t, u) (rw (← ((eq_iff key k).0 t), ← ((eq_iff id j).0 u)) e)
    | inr u ↦ rw (t, u) refl
  ]
  | inr f ↦ rw f refl
]

-- The status of a record that is raised again.
abbrev pub status_after : EscalationStatus → EscalationStatus
status_after EscalationStatus.open_ = EscalationStatus.open_
status_after EscalationStatus.acknowledged = EscalationStatus.acknowledged
status_after EscalationStatus.resolved = EscalationStatus.open_

-- The resolution of a record that is raised again, by its status and resolution before.
abbrev pub resolution_after : EscalationStatus → Option String → Option String
resolution_after EscalationStatus.open_ before = before
resolution_after EscalationStatus.acknowledged before = before
resolution_after EscalationStatus.resolved before = none

if-status_after :
    (s : EscalationStatus) → (if is_resolved s then EscalationStatus.open_ else s) ≡ status_after s
if-status_after EscalationStatus.open_ = refl
if-status_after EscalationStatus.acknowledged = refl
if-status_after EscalationStatus.resolved = refl

if-resolution_after :
    (s : EscalationStatus) (before : Option String)
    → (if is_resolved s then none else before) ≡ resolution_after s before
if-resolution_after EscalationStatus.open_ before = refl
if-resolution_after EscalationStatus.acknowledged before = refl
if-resolution_after EscalationStatus.resolved before = refl

module _ (timestamp : String) (seed : EscalationSeed) (file : EscalationFile) where
  abbrev id : String
  id = derive_escalation_dedup_key seed

  abbrev pub found : Option EscalationRecord
  found = record_at seed.canonical_session_key id file

  abbrev pub answer : EscalationRecord
  answer = (upsert_open timestamp seed file).1

  -- The answered record, by what was found under the dedup id.
  pub upsert_open-record : answer ≡ (elim found [
    | none ↦ created_record id timestamp seed
    | some existing ↦ updated_record id timestamp seed existing
  ])
  unfolding upsert_open record_at
  upsert_open-record =
      by_found (find_by escalation_id_of id ((read_state file).sessions seed.canonical_session_key))
    where
      by_found :
          (o : Option EscalationRecord)
          → (upsert_found timestamp seed (read_state file) id o).1 ≡ (elim o [
            | none ↦ created_record id timestamp seed
            | some existing ↦ updated_record id timestamp seed existing
          ])
      by_found none = refl
      by_found (some existing) = refl

  -- The record that an upsert answers with: the seed at its dedup id, updated now. A new record is
  -- open and created now. An existing record keeps its creation time; a resolved one is open again
  -- with no resolution, and any other keeps its status and its resolution.
  pub upsert_open-result :
      (answer.escalation_id ≡ id)
      × (answer.updated_at ≡ timestamp)
      × (answer.created_at ≡ (elim found [ none ↦ timestamp | some e ↦ e.created_at ]))
      × (answer.status
          ≡ (elim found [ none ↦ EscalationStatus.open_ | some e ↦ status_after e.status ]))
      × (answer.seed ≡ record seed {
        resolution = elim found [
          | none ↦ seed.resolution
          | some e ↦ resolution_after e.status e.resolution
        ];
      })
  unfolding upsert_open record_at updated_record created_record
  upsert_open-result =
      by_found (find_by escalation_id_of id ((read_state file).sessions seed.canonical_session_key))
    where
      by_found :
          (o : Option EscalationRecord)
          → ((upsert_found timestamp seed (read_state file) id o).1.escalation_id ≡ id)
            × ((upsert_found timestamp seed (read_state file) id o).1.updated_at ≡ timestamp)
            × ((upsert_found timestamp seed (read_state file) id o).1.created_at
                ≡ (elim o [ none ↦ timestamp | some e ↦ e.created_at ]))
            × ((upsert_found timestamp seed (read_state file) id o).1.status
                ≡ (elim o [ none ↦ EscalationStatus.open_ | some e ↦ status_after e.status ]))
            × ((upsert_found timestamp seed (read_state file) id o).1.seed ≡ record seed {
              resolution = elim o [
                | none ↦ seed.resolution
                | some e ↦ resolution_after e.status e.resolution
              ];
            })
      by_found none = (refl, refl, refl, refl, refl)
      by_found (some e) = (
        refl,
        refl,
        refl,
        if-status_after e.status,
        ap (λ r. record seed { resolution = r }) (if-resolution_after e.status e.resolution),
      )

  -- After an upsert the session of the seed has the answered record at the dedup id, and every other
  -- id of that session and every other session have what they had.
  pub record_at-upsert_open :
      (key j : String)
      → record_at key j (upsert_open timestamp seed file).0 ≡ (
          if (seed.canonical_session_key == key) && (id == j)
          then some (upsert_open timestamp seed file).1
          else record_at key j file)
  unfolding upsert_open record_at updated_record created_record
  record_at-upsert_open key j = by_found (find_by escalation_id_of id records) refl
    where
      records : List EscalationRecord
      records = (read_state file).sessions seed.canonical_session_key

      by_found :
          (found : Option EscalationRecord)
          → find_by escalation_id_of id records ≡ found
          → record_at key j (upsert_found timestamp seed (read_state file) id found).0 ≡ (
              if (seed.canonical_session_key == key) && (id == j)
              then some (upsert_found timestamp seed (read_state file) id found).1
              else record_at key j file)
      by_found none e =
          session_write (read_state file) seed.canonical_session_key key j id
            (created_record id timestamp seed) (records ++ created_record id timestamp seed ∷ [])
            (find_by-push escalation_id_of j (created_record id timestamp seed) records e)
      by_found (some existing) e =
          session_write (read_state file) seed.canonical_session_key key j id
            (updated_record id timestamp seed existing)
            (replace_by escalation_id_of id (updated_record id timestamp seed existing) records)
            (find_by-replace_by escalation_id_of id j (updated_record id timestamp seed existing)
              records refl e)

module _ (timestamp key id : String) (resolution : Option String) (file : EscalationFile) where
  -- Resolving an unknown id answers null. A known record is answered as resolved now, with the
  -- resolution given or none, and is otherwise as it was. Afterwards the id has the answered record,
  -- and every other id of the session and every other session have what they had.
  pub record_at-resolve :
      ((resolve timestamp key id resolution file).1 ≡ (elim (record_at key id file) [
        | none ↦ none
        | some e ↦ some (record {
          seed = record (e.seed) { resolution = resolution };
          escalation_id = e.escalation_id;
          created_at = e.created_at;
          updated_at = timestamp;
          status = EscalationStatus.resolved;
        })
      ]))
      × ((k j : String)
          → record_at k j (resolve timestamp key id resolution file).0 ≡ (
              if (key == k) && (id == j)
              then (resolve timestamp key id resolution file).1
              else record_at k j file))
  unfolding resolve record_at resolved_record
  record_at-resolve = (
    by_answer (find_by escalation_id_of id records),
    λ k j. by_found k j (find_by escalation_id_of id records) refl,
  )
    where
      records : List EscalationRecord
      records = (read_state file).sessions key

      by_answer :
          (found : Option EscalationRecord)
          → (resolve_found timestamp key id resolution file found).1 ≡ (elim found [
            | none ↦ none
            | some e ↦ some (record {
              seed = record (e.seed) { resolution = resolution };
              escalation_id = e.escalation_id;
              created_at = e.created_at;
              updated_at = timestamp;
              status = EscalationStatus.resolved;
            })
          ])
      by_answer none = refl
      by_answer (some e) = refl

      by_found :
          (k j : String) (found : Option EscalationRecord)
          → find_by escalation_id_of id records ≡ found
          → record_at k j (resolve_found timestamp key id resolution file found).0 ≡ (
              if (key == k) && (id == j)
              then (resolve_found timestamp key id resolution file found).1
              else record_at k j file)
      by_found k j none e = unknown_id file key k j id e
      by_found k j (some existing) e =
          session_write (read_state file) key k j id (resolved_record timestamp resolution existing)
            (replace_by escalation_id_of id (resolved_record timestamp resolution existing) records)
            (find_by-replace_by escalation_id_of id j
              (resolved_record timestamp resolution existing) records
              (find_by-key escalation_id_of id records e) e)
