-- ===== src/State/Outbox/Effects.antt =====
-- What the methods of an outbox write, and what they leave alone.
use assistant_context_router.Prelude.{
  String, ◌≡◌, refl, Option, none, some, List, ◌==◌, eq_iff, if◌then◌else◌, Bool-cases, inl, inr,
  Option-cases,
}
use assistant_context_router.Keyed.{find_by, find_by-key, find_by-replace_by, find_by-push}
use assistant_context_router.Types.Signals.{DeliveryRecord}
use assistant_context_router.State.Outbox.{
  Outcome, Outbox, deliveries, delivery_id_of, delivery_at, marked_record, mark_found,
  mark_delivery, pending_record, upsert_found, upsert_pending,
}

module _ {Seed Status : Type 0} (dedup_key : Seed → String) (pending : Status) (timestamp : String)
    (seed : Seed) (file : Outbox Seed Status) where
  abbrev answer : DeliveryRecord Seed Status
  answer = (upsert_pending dedup_key pending timestamp seed file).1

  -- `upsertPending` answers with the seed waiting under its dedup key, with no runtime target, error or
  -- patch; a record that was there keeps its creation time. Afterwards the outbox has that record under
  -- the key and what it had under every other id.
  pub delivery_at-upsert_pending :
      (answer ≡ (elim (delivery_at (dedup_key seed) file) [
        | none ↦ record {
          seed = seed;
          delivery_id = dedup_key seed;
          created_at = timestamp;
          updated_at = timestamp;
          status = pending;
          runtime_target_id = none;
          error_reason = none;
          trace_patch = none;
        }
        | some existing ↦ record {
          seed = seed;
          delivery_id = dedup_key seed;
          created_at = existing.created_at;
          updated_at = timestamp;
          status = pending;
          runtime_target_id = none;
          error_reason = none;
          trace_patch = none;
        }
      ]))
      × ((j : String)
          → delivery_at j (upsert_pending dedup_key pending timestamp seed file).0
            ≡ (if dedup_key seed == j then some answer else delivery_at j file))
  unfolding upsert_pending delivery_at pending_record
  delivery_at-upsert_pending = by_found (find_by delivery_id_of (dedup_key seed) records) refl
    where
      records : List (DeliveryRecord Seed Status)
      records = deliveries file

      by_found :
          (found : Option (DeliveryRecord Seed Status))
          → find_by delivery_id_of (dedup_key seed) records ≡ found
          → ((upsert_found dedup_key pending timestamp seed records found).1 ≡ (elim found [
            | none ↦ pending_record dedup_key pending timestamp timestamp seed
            | some existing ↦ pending_record dedup_key pending existing.created_at timestamp seed
          ]))
            × ((j : String)
                → delivery_at j (upsert_found dedup_key pending timestamp seed records found).0 ≡ (
                    if dedup_key seed == j
                    then some (upsert_found dedup_key pending timestamp seed records found).1
                    else delivery_at j file))
      by_found none e = (
        refl,
        λ j.
            find_by-push delivery_id_of j
              (pending_record dedup_key pending timestamp timestamp seed) records e,
      )
      by_found (some existing) e = (
        refl,
        λ j.
            find_by-replace_by delivery_id_of (dedup_key seed) j
              (pending_record dedup_key pending existing.created_at timestamp seed) records refl e,
      )

module _ {Seed Status : Type 0} (timestamp id : String) (outcome : Outcome Status)
    (file : Outbox Seed Status) where
  abbrev records : List (DeliveryRecord Seed Status)
  records = deliveries file

  mark_found-answer :
      (found : Option (DeliveryRecord Seed Status))
      → ((mark_found timestamp id outcome file found).1 ≡ (elim found [
        | none ↦ none
        | some existing ↦ some (record existing {
          updated_at = timestamp;
          status = outcome.status;
          runtime_target_id = elim outcome.runtime_target_id [
            | some t ↦ some t
            | none ↦ existing.runtime_target_id
          ];
          error_reason = outcome.error_reason;
          trace_patch = outcome.trace_patch;
        })
      ]))
  unfolding marked_record mark_found
  mark_found-answer none = refl
  mark_found-answer (some existing) = elim (Option-cases outcome.runtime_target_id) [
    | inl n ↦ rw n refl
    | inr (t, e) ↦ rw e refl
  ]

  mark_found-file :
      (j : String) (found : Option (DeliveryRecord Seed Status))
      → find_by delivery_id_of id records ≡ found
      → delivery_at j (mark_found timestamp id outcome file found).0
        ≡ (if id == j then (mark_found timestamp id outcome file found).1 else delivery_at j file)
  unfolding delivery_at marked_record mark_found
  mark_found-file j none e = elim (Bool-cases (id == j)) [
    | inl t ↦ rw t (rw (← ((eq_iff id j).0 t)) e)
    | inr f ↦ rw f refl
  ]
  mark_found-file j (some existing) e =
      find_by-replace_by delivery_id_of id j (marked_record timestamp outcome existing) records
        (find_by-key delivery_id_of id records e) e

  -- `markDelivery` answers null for an unknown id. A known record takes the time, and the outcome's
  -- status, error and patch; it takes the outcome's runtime target if there is one and keeps its own
  -- if not; and it is otherwise as it was. Afterwards the id has the answered record, and every other
  -- id has what it had.
  pub delivery_at-mark_delivery :
      ((mark_delivery timestamp id outcome file).1 ≡ (elim (delivery_at id file) [
        | none ↦ none
        | some existing ↦ some (record existing {
          updated_at = timestamp;
          status = outcome.status;
          runtime_target_id = elim outcome.runtime_target_id [
            | some t ↦ some t
            | none ↦ existing.runtime_target_id
          ];
          error_reason = outcome.error_reason;
          trace_patch = outcome.trace_patch;
        })
      ]))
      × ((j : String)
          → delivery_at j (mark_delivery timestamp id outcome file).0
            ≡ (if id == j then (mark_delivery timestamp id outcome file).1 else delivery_at j file))
  unfolding mark_delivery delivery_at
  delivery_at-mark_delivery = (
    mark_found-answer (find_by delivery_id_of id records),
    λ j. mark_found-file j (find_by delivery_id_of id records) refl,
  )
