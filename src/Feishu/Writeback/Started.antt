-- ===== src/Feishu/Writeback/Started.antt =====
-- The time at which work on a row began.
use assistant_context_router.Prelude.{
  String, Bool, true, false, ◌&&◌, Option, none, List, ◌∷◌, ◌≡◌, refl, ◌∙◌, ap, ◌==◌, ◌<|>◌, inl,
  inr,
}
use assistant_context_router.Text.{is_empty}
use assistant_context_router.Value
use assistant_context_router.Value.{Value, Fields, lookup, merge_fields}
use assistant_context_router.Value.Laws.{lookup-merge_fields}
use assistant_context_router.Host.{Host}
use assistant_context_router.Feishu.Texts.{Kind, Target, normalize_text_value}
use assistant_context_router.Feishu.Names.{Names, shared_names}
use assistant_context_router.Feishu.Metadata.{Field, Row, cell}
use assistant_context_router.Feishu.Patch.{WritebackPatch}
use assistant_context_router.Feishu.Writeback.{
  Request, changed_status, next_fields, starts, progress_cells,
}
use assistant_context_router.Feishu.Writeback.Cells.{
  IsApart, report_names, lookup-report_cells, lookup-progress_cells, lookup-set_if_other, or_false,
}
use assistant_context_router.Feishu.Writeback.Lifecycle.{
  Run, row_of, plan_row-cases, current, derived,
}

-- The columns besides the start time that a plan may write.
abbrev pub unstarted_names : Names → Kind → List String
unstarted_names names kind =
    let n = shared_names names kind in
    n.status
    ∷ n.last_event_at
    ∷ n.next_action
    ∷ n.step_result
    ∷ n.current_step
    ∷ report_names names kind

starts-filled :
    (p : WritebackPatch) (cell : Option Value)
    → is_empty (normalize_text_value cell) ≡ false
    → starts p cell ≡ false
starts-filled p cell h = rw h (and_false p.set_started_at_if_empty)
  where
    and_false : (b : Bool) → (b && false) ≡ false
    and_false true = refl
    and_false false = refl

module _ (names : Names) (kind : Kind) (p : WritebackPatch) (now : Option String) (row : Row)
    (time : Value) where
  lookup-next_fields-started :
      IsApart (shared_names names kind).started_at (unstarted_names names kind)
      → is_empty (normalize_text_value (cell row (shared_names names kind).started_at)) ≡ false
      → lookup (shared_names names kind).started_at (next_fields names kind p now row time) ≡ none
  unfolding next_fields
  lookup-next_fields-started h filled =
      let n = shared_names names kind in
      let key = n.started_at in
      let (h0, r0) = or_false (n.status == key) _ h in
      let (h1, r1) = or_false (n.last_event_at == key) _ r0 in
      let (h2, r2) = or_false (n.next_action == key) _ r1 in
      let (h3, r3) = or_false (n.step_result == key) _ r2 in
      let (h4, r4) = or_false (n.current_step == key) _ r3 in
      lookup-report_cells key names kind p _ r4
      ∙ rw (starts-filled p (cell row key) filled) (
          lookup-set_if_other key n.status (changed_status p.status now) (progress_cells n p time)
            h0
          ∙ lookup-progress_cells key n p time (rw (h1, h2, h3, h4) refl))

module _ (host : Host) (names : Names) (by_name : List (String × Field)) (target : Target) where
  abbrev pub started_of : Fields → Option Value
  started_of fields = lookup (shared_names names target.kind).started_at fields

  -- Once a row has a start time, no sequence of writebacks changes it.
  pub Run-started :
      {P : Request → Type 0} {fields last : Fields}
      → IsApart (shared_names names target.kind).started_at (unstarted_names names target.kind)
      → is_empty (normalize_text_value (started_of fields)) ≡ false
      → Run host names by_name target P fields last
      → started_of last ≡ started_of fields
  unfolding merge_fields Value.get
  Run-started apart filled Run.done = refl
  Run-started {P} {fields} {last} apart filled (Run.step request timestamp plan allowed h run) =
      let row = row_of host names by_name target fields in
      let key = (shared_names names target.kind).started_at in
      let p = derived host names request target row in
      let now = current host names request target row in
      let kept : started_of (merge_fields plan.fields fields) ≡ started_of fields =
        elim (plan_row-cases host names request target row by_name timestamp plan h) [
          | inl (o, e) ↦ ap (λ u. started_of (merge_fields u fields)) e
          | inr (r, time, e) ↦
              lookup-merge_fields key plan.fields fields
              ∙ ap (λ o. o <|> started_of fields)
                  (ap (lookup key) e
                    ∙ lookup-next_fields-started names target.kind p now row time apart filled)
        ] in
      Run-started apart (ap (λ v. is_empty (normalize_text_value v)) kept ∙ filled) run ∙ kept
