-- ===== src/Feishu/Writeback.antt =====
-- adapters/feishu/src/task-bug-writeback.ts: the plan of a writeback for each target, its application,
-- and a whole run. The adapter keeps the metadata that it has read; here they are passed on.
pub mod Plans
pub mod Cells
pub mod Lifecycle
pub mod Acceptance
pub mod Effect
pub mod Started
pub mod Runs
unfoldable pub use Plans.*
use Prim.Native.String
use assistant_context_router.Prelude.{
  ℕ, String, Bool, true, false, not, ◌&&◌, Option, none, some, List, [], ◌∷◌, ◌==◌, ◌<|>◌,
  if◌then◌else◌, and_then, or_else, find?,
}
use assistant_context_router.Text.{is_empty, truthy, ◌⧺◌}
use assistant_context_router.Value
use assistant_context_router.Value.{Value, Fields, set_field}
use assistant_context_router.Host.{Host}
use assistant_context_router.Types.Routing.{NormalizedEnvelope, ServiceResult, RouterConfig}
use assistant_context_router.Feishu.Attempt.{
  Attempt, returned, thrown, ◌>>=◌, ◌>>◌, expect, attempt_all,
}
use assistant_context_router.Feishu.Texts.{
  Kind, FixResult, fix_result_text, Target, resolve_targets, normalize_text_value,
}
use assistant_context_router.Feishu.Policy.{ResolvedPolicy, resolve_task_bug_policy}
use assistant_context_router.Feishu.Patch.{
  Phase, WritebackPatch, PatchInput, effective_action, derive_writeback_patch,
  should_noop_for_status,
}
use assistant_context_router.Feishu.Names.{SharedNames, TaskNames, BugNames, Names, shared_names}
use assistant_context_router.Feishu.Metadata.{
  Field, Row, Client, Metadata, inspect_metadata, validate_select_coverage, extract_record_id,
  kind_text, table_id_of, fields_of, cell,
}

unfoldable pub find_target_record :
    {World : Type 0} → Client World → Metadata → World → Target → Attempt Row
find_target_record client metadata w target = do
  rows ← client.list_records (table_id_of metadata target.kind) 1000 w
  expect ("missing-task-bug-record:" ⧺ kind_text target.kind ⧺ ":" ⧺ target.record_id)
      (find? (λ row. row.record_id == target.record_id) rows)

module _ {World : Type 0} (host : Host) (client : Client World) (names : Names) where
  -- The loop's body.
  unfoldable pub plan_target : Request → ℕ → World → Metadata → Target → Attempt Plan
  unfolding find_target_record plan_row
  plan_target request now w metadata target = do
    row ← find_target_record client metadata w target
    plan_row host names request (fields_of metadata target.kind) (host.to_iso_string now) target row

  unfoldable pub plan_writeback : Request → ℕ → World → Attempt Metadata → Attempt (List Plan)
  unfolding plan_target
  plan_writeback request now w kept = do
    metadata ← kept
    attempt_all (plan_target request now w metadata) (resolve_targets request.envelope.parameters)

  unfoldable pub apply_writeback : Attempt Metadata → Plan → World → Attempt ApplyResult × World
  apply_writeback kept plan w = elim (plan.operation) [
    | Operation.noop ↦ (
      returned (record {
        kind = plan.kind;
        record_id = plan.record_id;
        operation = Operation.noop;
        applied_record_id = some plan.record_id;
        fields = Value.end;
      }),
      w,
    )
    | Operation.updated ↦ elim kept [
      | thrown e ↦ (thrown e, w)
      | returned metadata ↦
          let (answer, w') =
            client.upsert_record (table_id_of metadata plan.kind) plan.record_id plan.fields w in
          (
            answer >>= (λ payload. returned (record {
              kind = plan.kind;
              record_id = plan.record_id;
              operation = Operation.updated;
              applied_record_id = extract_record_id (some payload) <|> some plan.record_id;
              fields = plan.fields;
            })),
            w',
          )
    ]
  ]

  -- Every plan is applied, whatever becomes of the others; the first error is the answer.
  unfoldable pub apply_all :
      Attempt Metadata → List Plan → World → Attempt (List ApplyResult) × World
  unfolding apply_writeback
  apply_all kept [] w = (returned [], w)
  apply_all kept (plan ∷ plans) w =
      let (result, w') = apply_writeback kept plan w in
      let (results, w'') = apply_all kept plans w' in
      (result >>= (λ r. results >>= (λ rs. returned (r ∷ rs))), w'')

  -- What is done with the plans: nothing in a dry run.
  unfoldable pub run_plans :
      Bool
      → Attempt Metadata
      → World
      → Attempt (List Plan)
      → Attempt (List Plan × Option (List ApplyResult)) × World
  unfolding apply_all
  run_plans apply kept w (thrown e) = (thrown e, w)
  run_plans false kept w (returned plans) = (returned (plans, none), w)
  run_plans true kept w (returned plans) =
      let (results, w') = apply_all kept plans w in
      (results >>= (λ rs. returned (plans, some rs)), w')

  unfoldable pub run_writeback :
      Bool → Request → ℕ → World → Attempt (List Plan × Option (List ApplyResult)) × World
  unfolding plan_writeback run_plans
  run_writeback apply request now w =
      let kept = inspect_metadata client names w in
      run_plans apply kept w (plan_writeback request now w kept)
