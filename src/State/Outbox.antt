-- ===== src/State/Outbox.antt =====
-- The outbox that state/governance-delivery-outbox.ts and state/business-notification-delivery-outbox.ts
-- implement line for line alike, over the seed and the statuses of each. The lock serialises the
-- calls; `none` is a state file that is missing or does not parse.
pub mod Effects
pub mod Invariant
use assistant_context_router.Prelude.{
  String, Bool, Option, none, some, List, [], ◌∷◌, ◌++◌, filter, ◌==◌, ◌<|>◌, or_else,
}
use assistant_context_router.Host.{Host, not_after}
use assistant_context_router.Sorting.{sort}
use assistant_context_router.Keyed.{find_by, replace_by}
use assistant_context_router.Value.{Fields}
use assistant_context_router.Types.Signals.{DeliveryRecord}

-- The argument of `markDelivery`, but for the id.
pub record Outcome (Status : Type 0) : Type 0 where
  pub status : Status
  pub runtime_target_id : Option String
  pub error_reason : Option String
  pub trace_patch : Option Fields

abbrev pub Outbox : Type 0 → Type 0 → Type 0
Outbox Seed Status = Option (List (DeliveryRecord Seed Status))

module _ {Seed Status : Type 0} where
  abbrev pub deliveries : Outbox Seed Status → List (DeliveryRecord Seed Status)
  deliveries file = or_else file []

  abbrev pub delivery_id_of : DeliveryRecord Seed Status → String
  delivery_id_of r = r.delivery_id

  -- The record with an id.
  unfoldable pub delivery_at : String → Outbox Seed Status → Option (DeliveryRecord Seed Status)
  delivery_at id file = find_by delivery_id_of id (deliveries file)

  unfoldable pub marked_record :
      String → Outcome Status → DeliveryRecord Seed Status → DeliveryRecord Seed Status
  marked_record timestamp outcome existing = record existing {
    updated_at = timestamp;
    status = outcome.status;
    runtime_target_id = outcome.runtime_target_id <|> existing.runtime_target_id;
    error_reason = outcome.error_reason;
    trace_patch = outcome.trace_patch;
  }

  mark_found :
      String
      → String
      → Outcome Status
      → Outbox Seed Status
      → Option (DeliveryRecord Seed Status)
      → Outbox Seed Status × Option (DeliveryRecord Seed Status)
  unfolding marked_record
  mark_found timestamp id outcome file none = (file, none)
  mark_found timestamp id outcome file (some existing) = (
    some
        (replace_by delivery_id_of id (marked_record timestamp outcome existing) (deliveries file)),
    some (marked_record timestamp outcome existing),
  )

  -- `markDelivery`; an unknown id writes nothing and answers null.
  unfoldable pub mark_delivery :
      String
      → String
      → Outcome Status
      → Outbox Seed Status
      → Outbox Seed Status × Option (DeliveryRecord Seed Status)
  unfolding mark_found
  mark_delivery timestamp id outcome file =
      mark_found timestamp id outcome file (find_by delivery_id_of id (deliveries file))

  module _ (dedup_key : Seed → String) (pending : Status) where
    -- A record of this seed that waits for delivery, created at the given time.
    unfoldable pub pending_record : String → String → Seed → DeliveryRecord Seed Status
    pending_record created_at timestamp seed = record {
      seed = seed;
      delivery_id = dedup_key seed;
      created_at = created_at;
      updated_at = timestamp;
      status = pending;
      runtime_target_id = none;
      error_reason = none;
      trace_patch = none;
    }

    upsert_found :
        String
        → Seed
        → List (DeliveryRecord Seed Status)
        → Option (DeliveryRecord Seed Status)
        → Outbox Seed Status × DeliveryRecord Seed Status
    unfolding pending_record
    upsert_found timestamp seed records (some existing) = (
      some (
          replace_by delivery_id_of (dedup_key seed)
            (pending_record existing.created_at timestamp seed) records),
      pending_record existing.created_at timestamp seed,
    )
    upsert_found timestamp seed records none = (
      some (records ++ pending_record timestamp timestamp seed ∷ []),
      pending_record timestamp timestamp seed,
    )

    -- `upsertPending`
    unfoldable pub upsert_pending :
        String → Seed → Outbox Seed Status → Outbox Seed Status × DeliveryRecord Seed Status
    unfolding upsert_found
    upsert_pending timestamp seed file =
        upsert_found timestamp seed (deliveries file)
          (find_by delivery_id_of (dedup_key seed) (deliveries file))

  -- `listByProject`
  unfoldable pub list_by_project :
      Host → (Seed → String) → String → Outbox Seed Status → List (DeliveryRecord Seed Status)
  list_by_project host project_of project_id file =
      sort (λ l r. not_after host l.updated_at r.updated_at)
        (filter (λ r. project_of r.seed == project_id) (deliveries file))
