-- ===== src/State/Escalations/Listing.antt =====
-- What `listOpen` answers, and the life of one escalation.
use mathlib.Core.List.{Mem}
use mathlib.Core.List.Perm
use assistant_context_router.Prelude.{
  String, ◌≡◌, ◌↔◌, refl, true, Option, none, some, eq_refl, ◌∙◌, ap, filter, ◌==◌, ◌&&◌,
  if◌then◌else◌,
}
use assistant_context_router.Host.{Host, Collates}
use assistant_context_router.Sorting.{IsSorted, sort-perm, sort-IsSorted, mem-filter}
use assistant_context_router.Types.Signals.{EscalationSeed, EscalationRecord, EscalationStatus}
use assistant_context_router.Routing.SignalRecords.{derive_escalation_dedup_key}
use assistant_context_router.State.Escalations.{
  EscalationFile, upsert_open, resolve, record_at, list_open, is_open, of_project, updated_before,
  read_state, resolved_record, updated_record,
}
use assistant_context_router.State.Escalations.Effects.{
  upsert_open-record, record_at-upsert_open, record_at-resolve,
}

module _ (host : Host) (key : String) (project_id : Option String) (file : EscalationFile) where
  -- A record is listed exactly when it is stored under the session, is not resolved, and belongs to
  -- the project asked for, if one is.
  pub mem-list_open :
      (r : EscalationRecord)
      → Mem r (list_open host key project_id file) ↔ (
          Mem r ((read_state file).sessions key)
          × (is_open r ≡ true)
          × (of_project project_id r ≡ true))
  unfolding list_open
  mem-list_open r =
      let records = (read_state file).sessions key in
      let chosen = filter (of_project project_id) (filter is_open records) in
      let perm = sort-perm (updated_before host) chosen in
      let outer = mem-filter (of_project project_id) r (filter is_open records) in
      let inner = mem-filter is_open r records in
      (
        λ m. let k = outer.0 ((Perm.mem_iff perm).0 m) in let i = inner.0 k.0 in (i.0, i.1, k.1),
        λ t. (Perm.mem_iff perm).1 (outer.1 (inner.1 (t.0, t.1), t.2)),
      )

  -- On a host whose collation is total and transitive the list is sorted by the time of update.
  pub list_open-IsSorted :
      Collates host → IsSorted (updated_before host) (list_open host key project_id file)
  unfolding list_open
  list_open-IsSorted laws =
      sort-IsSorted (updated_before host) (λ x y h. laws.total x.updated_at y.updated_at h)
        (λ x y z h k. laws.trans x.updated_at y.updated_at z.updated_at h k)
        (filter (of_project project_id) (filter is_open ((read_state file).sessions key)))

module _ (seed : EscalationSeed) (resolution : Option String) (resolved_at again_at : String)
    (file : EscalationFile) {r : EscalationRecord}
    (stored : record_at seed.canonical_session_key (derive_escalation_dedup_key seed) file
      ≡ some r) where
  abbrev id : String
  id = derive_escalation_dedup_key seed

  -- The file after the stored escalation is resolved.
  abbrev pub after_resolve : EscalationFile
  after_resolve = (resolve resolved_at seed.canonical_session_key id resolution file).0

  resolve-answer :
      (resolve resolved_at seed.canonical_session_key id resolution file).1
      ≡ some (resolved_record resolved_at resolution r)
  unfolding resolve record_at
  resolve-answer = rw stored refl

  -- A stored escalation that is resolved stands in the file as resolved, with the resolution that was
  -- given; raised again, it is the same record open again: its creation time stays and its resolution
  -- is gone.
  pub resolve-then-upsert :
      (record_at seed.canonical_session_key id after_resolve
        ≡ some (record {
          seed = record (r.seed) { resolution = resolution };
          escalation_id = r.escalation_id;
          created_at = r.created_at;
          updated_at = resolved_at;
          status = EscalationStatus.resolved;
        }))
      × (record_at seed.canonical_session_key id (upsert_open again_at seed after_resolve).0
          ≡ some (record {
            seed = record seed { resolution = none };
            escalation_id = id;
            created_at = r.created_at;
            updated_at = again_at;
            status = EscalationStatus.open_;
          }))
  unfolding resolved_record updated_record
  resolve-then-upsert = (resolved, again)
    where
      here :
          (v w : Option EscalationRecord)
          → (if (seed.canonical_session_key == seed.canonical_session_key) && (id == id)
              then v
              else w)
            ≡ v
      here v w = simp eq_refl

      resolved :
          record_at seed.canonical_session_key id after_resolve
          ≡ some (resolved_record resolved_at resolution r)
      resolved =
          (record_at-resolve resolved_at seed.canonical_session_key id resolution file).1
            seed.canonical_session_key id
          ∙ here _ _
          ∙ resolve-answer

      again :
          record_at seed.canonical_session_key id (upsert_open again_at seed after_resolve).0
          ≡ some (updated_record id again_at seed (resolved_record resolved_at resolution r))
      again =
          record_at-upsert_open again_at seed after_resolve seed.canonical_session_key id
          ∙ here _ _
          ∙ ap some (upsert_open-record again_at seed after_resolve ∙ rw resolved refl)
