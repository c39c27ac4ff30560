-- ===== src/Feishu/Writeback/Runs.antt =====
-- Runs that leave the table as it is.
use assistant_context_router.Prelude.{ℕ, Bool, true, false, List, [], ◌∷◌, ◌≡◌, refl, ◌∙◌, ap, All}
use assistant_context_router.Host.{Host}
use assistant_context_router.Feishu.Attempt.{
  Attempt, returned, thrown, attempt_all, bind-returned, attempt_all-All,
}
use assistant_context_router.Feishu.Texts.{Target, resolve_targets, normalize_text_value}
use assistant_context_router.Feishu.Names.{Names, shared_names}
use assistant_context_router.Feishu.Metadata.{
  Row, Client, Metadata, inspect_metadata, fields_of, cell,
}
use assistant_context_router.Feishu.Writeback.{
  Plan, Operation, Request, plan_row, plan_target, plan_writeback, apply_writeback, apply_all,
  run_writeback, run_plans, find_target_record,
}
use assistant_context_router.Feishu.Writeback.Lifecycle.{archived_noop}

module _ {World : Type 0} (host : Host) (client : Client World) (names : Names) where
  run_plans-dry :
      (kept : Attempt Metadata) (w : World) (plans : Attempt (List Plan))
      → (run_plans host client names false kept w plans).1 ≡ w
  unfolding run_plans
  run_plans-dry kept w (returned plans) = refl
  run_plans-dry kept w (thrown e) = refl

  apply_writeback-noop :
      (kept : Attempt Metadata) (plan : Plan) (w : World)
      → plan.operation ≡ Operation.noop
      → (apply_writeback host client names kept plan w).1 ≡ w
  unfolding apply_writeback
  apply_writeback-noop kept plan w h = rw h refl

  apply_all-noop :
      (kept : Attempt Metadata) (plans : List Plan) (w : World)
      → All (λ plan. plan.operation ≡ Operation.noop) plans
      → (apply_all host client names kept plans w).1 ≡ w
  unfolding apply_all
  apply_all-noop kept [] w h = refl
  apply_all-noop kept (plan ∷ plans) w (h, hs) =
      ap (λ v. (apply_all host client names kept plans v).1) (apply_writeback-noop kept plan w h)
      ∙ apply_all-noop kept plans w hs

  run_plans-noop :
      (apply : Bool) (kept : Attempt Metadata) (w : World) (plans : Attempt (List Plan))
      → ((ps : List Plan) → plans ≡ returned ps → All (λ plan. plan.operation ≡ Operation.noop) ps)
      → (run_plans host client names apply kept w plans).1 ≡ w
  unfolding run_plans
  run_plans-noop apply kept w (thrown e) h = refl
  run_plans-noop false kept w (returned plans) h = refl
  run_plans-noop true kept w (returned plans) h = apply_all-noop kept plans w (h plans refl)

  -- The row that a target names is archived.
  abbrev pub IsArchivedTarget : World → Target → Type 0
  IsArchivedTarget w target =
      (metadata : Metadata) (row : Row)
      → find_target_record client metadata w target ≡ returned row
      → normalize_text_value (cell row (shared_names names target.kind).status) ≡ "Archived"

  module _ (request : Request) (now : ℕ) (w : World) where
    plan_target-archived :
        (metadata : Metadata) (target : Target) (plan : Plan)
        → IsArchivedTarget w target
        → plan_target host client names request now w metadata target ≡ returned plan
        → plan.operation ≡ Operation.noop
    unfolding plan_target
    plan_target-archived metadata target plan archived h =
        let (row, e, h1) =
          bind-returned (find_target_record client metadata w target)
            (λ r.
              plan_row host names request (fields_of metadata target.kind) (host.to_iso_string now)
                target r)
            plan h in
        archived_noop host names request target row (fields_of metadata target.kind)
          (host.to_iso_string now) plan (archived metadata row e) h1

    -- A run over archived rows leaves the table as it is, applied or not.
    pub run_writeback-archived :
        (apply : Bool)
        → All (IsArchivedTarget w) (resolve_targets request.envelope.parameters)
        → (run_writeback host client names apply request now w).1 ≡ w
    unfolding run_writeback plan_writeback
    run_writeback-archived apply archived =
        let kept = inspect_metadata client names w in
        let targets = resolve_targets request.envelope.parameters in
        run_plans-noop apply kept w (plan_writeback host client names request now w kept)
          (λ plans h.
            let (metadata, e, h1) =
              bind-returned kept
                (λ m. attempt_all (plan_target host client names request now w m) targets) plans
                h in
            attempt_all-All (plan_target host client names request now w metadata)
              (IsArchivedTarget w) (λ plan. plan.operation ≡ Operation.noop)
              (plan_target-archived metadata) targets plans archived h1)

    -- A dry run leaves the table as it is.
    pub run_writeback-dry : (run_writeback host client names false request now w).1 ≡ w
    unfolding run_writeback
    run_writeback-dry =
        let kept = inspect_metadata client names w in
        run_plans-dry kept w (plan_writeback host client names request now w kept)
