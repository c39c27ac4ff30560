-- ===== src/State/Outbox/Invariant.antt =====
-- The invariant of an outbox.
use assistant_context_router.Prelude.{
  String, ◌≡◌, refl, Option, none, some, List, [], ◌∷◌, All, All-append,
}
use assistant_context_router.Keyed.{
  find_by, find_by-key, IsDistinct, IsDistinct-replace_by, IsDistinct-push, All-replace_by,
  All-find_by,
}
use assistant_context_router.Types.Signals.{DeliveryRecord}
use assistant_context_router.State.Outbox.{
  Outcome, Outbox, deliveries, delivery_id_of, marked_record, mark_found, mark_delivery,
  pending_record, upsert_found, upsert_pending,
}

module _ {Seed Status : Type 0} (dedup_key : Seed → String) (pending : Status) where
  -- The id of a record is the dedup key of its own seed.
  abbrev pub IsKeyed : DeliveryRecord Seed Status → Type 0
  IsKeyed r = r.delivery_id ≡ dedup_key r.seed

  -- Every record has its own key as its id, and no two share an id.
  abbrev pub IsConsistent : Outbox Seed Status → Type 0
  IsConsistent file = All IsKeyed (deliveries file) × IsDistinct delivery_id_of (deliveries file)

  upsert_found-IsConsistent :
      (timestamp : String) (seed : Seed) (records : List (DeliveryRecord Seed Status))
      (found : Option (DeliveryRecord Seed Status))
      → find_by delivery_id_of (dedup_key seed) records ≡ found
      → IsConsistent (some records)
      → IsConsistent (upsert_found dedup_key pending timestamp seed records found).0
  unfolding upsert_pending
  upsert_found-IsConsistent timestamp seed records none e h =
      let new = pending_record dedup_key pending timestamp timestamp seed in
      (
        All-append IsKeyed records (new ∷ []) h.0 (refl, tt),
        IsDistinct-push delivery_id_of new records e h.1,
      )
  upsert_found-IsConsistent timestamp seed records (some existing) e h =
      let new = pending_record dedup_key pending existing.created_at timestamp seed in
      (
        All-replace_by delivery_id_of IsKeyed (dedup_key seed) new records refl h.0,
        IsDistinct-replace_by delivery_id_of (dedup_key seed) new records refl h.1,
      )

  mark_found-IsConsistent :
      (timestamp id : String) (outcome : Outcome Status) (file : Outbox Seed Status)
      (found : Option (DeliveryRecord Seed Status))
      → find_by delivery_id_of id (deliveries file) ≡ found
      → IsConsistent file
      → IsConsistent (mark_found timestamp id outcome file found).0
  unfolding mark_delivery
  mark_found-IsConsistent timestamp id outcome file none e h = h
  mark_found-IsConsistent timestamp id outcome file (some existing) e h =
      let new = marked_record timestamp outcome existing in
      (
        All-replace_by delivery_id_of IsKeyed id new (deliveries file)
            (All-find_by delivery_id_of IsKeyed id (deliveries file) h.0 e) h.0,
        IsDistinct-replace_by delivery_id_of id new (deliveries file)
            (find_by-key delivery_id_of id (deliveries file) e) h.1,
      )

  -- The outboxes that calls of the two writing methods lead to, in any order, from a missing file.
  pub data Calls : Outbox Seed Status → Type 0 where
    missing : Calls none
    upserts :
        (file : Outbox Seed Status) (timestamp : String) (seed : Seed)
        → Calls file
        → Calls (upsert_pending dedup_key pending timestamp seed file).0
    marks :
        (file : Outbox Seed Status) (timestamp id : String) (outcome : Outcome Status)
        → Calls file
        → Calls (mark_delivery timestamp id outcome file).0

  -- Whatever calls are made in whatever order, every delivery has the dedup key of its own seed as its
  -- id, and no id is there twice: retries never duplicate a delivery.
  pub Calls-IsConsistent : {file : Outbox Seed Status} → Calls file → IsConsistent file
  unfolding upsert_pending mark_delivery
  Calls-IsConsistent missing = (tt, tt)
  Calls-IsConsistent (upserts file timestamp seed r) =
      upsert_found-IsConsistent timestamp seed (deliveries file) _ refl (Calls-IsConsistent r)
  Calls-IsConsistent (marks file timestamp id outcome r) =
      mark_found-IsConsistent timestamp id outcome file _ refl (Calls-IsConsistent r)
