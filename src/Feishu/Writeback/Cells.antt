-- ===== src/Feishu/Writeback/Cells.antt =====
-- The cells that a plan writes: which columns, and the status among them.
use assistant_context_router.Prelude.{
  String, Bool, true, false, ◌||◌, Option, some, none, List, [], ◌∷◌, ◌≡◌, refl, ◌∙◌, ap, ◌==◌,
  ◌<|>◌, any, arith, if◌then◌else◌,
}
use assistant_context_router.Text.{is_empty}
use assistant_context_router.Value
use assistant_context_router.Value.{Value, Fields, lookup, set_field}
use assistant_context_router.Value.Laws.{lookup-set_field, lookup-set_field_other}
use assistant_context_router.Feishu.Texts.{Kind}
use assistant_context_router.Feishu.Names.{SharedNames, Names, shared_names}
use assistant_context_router.Feishu.Metadata.{Row, cell}
use assistant_context_router.Feishu.Patch.{WritebackPatch}
use assistant_context_router.Feishu.Writeback.{
  progress_cells, report_cells, next_fields, set_if, changed_status, fix_text, starts,
}

-- `key` is none of the names.
abbrev pub IsApart : String → List String → Type 0
IsApart key names = any (λ n. n == key) names ≡ false

abbrev pub report_names : Names → Kind → List String
report_names names Kind.task = names.task.execution_summary ∷ []
report_names names Kind.bug = names.bug.fix_result ∷ names.bug.fix_method ∷ []

-- The columns of a row that a plan may write besides the status.
abbrev pub written_names : Names → Kind → List String
written_names names kind =
    let n = shared_names names kind in
    n.last_event_at
    ∷ n.next_action
    ∷ n.step_result
    ∷ n.current_step
    ∷ n.started_at
    ∷ report_names names kind

-- The value of a cell whose text is set only if it is not empty.
abbrev pub text_cell : Option String → Option Value
text_cell none = none
text_cell (some s) = if is_empty s then none else some (Value.str s)

lookup-set_if :
    (key : String) (text : Option String) (fields : Fields)
    → lookup key (set_if text key fields) ≡ (text_cell text <|> lookup key fields)
lookup-set_if key none fields = refl
lookup-set_if key (some s) fields = ground (arith, lookup-set_field key (Value.str s) fields)

pub lookup-set_if_other :
    (key k : String) (text : Option String) (fields : Fields)
    → (k == key) ≡ false
    → lookup key (set_if text k fields) ≡ lookup key fields
lookup-set_if_other key k none fields h = refl
lookup-set_if_other key k (some s) fields h =
    ground (arith, lookup-set_field_other key k (Value.str s) fields h)

pub or_false : (a b : Bool) → (a || b) ≡ false → (a ≡ false) × (b ≡ false)
or_false true b h = (h, ground arith)
or_false false b h = (refl, h)

pub lookup-progress_cells :
    (key : String) (n : SharedNames) (p : WritebackPatch) (time : Value)
    → IsApart key (n.last_event_at ∷ n.next_action ∷ n.step_result ∷ n.current_step ∷ [])
    → lookup key (progress_cells n p time) ≡ none
unfolding progress_cells lookup
lookup-progress_cells key n p time h =
    let (h1, r1) = or_false _ _ h in
    let (h2, r2) = or_false _ _ r1 in
    let (h3, r3) = or_false _ _ r2 in
    let (h4, r4) = or_false _ _ r3 in
    lookup-set_field_other key n.last_event_at time _ h1
    ∙ lookup-set_field_other key n.next_action (Value.str p.next_action) _ h2
    ∙ lookup-set_field_other key n.step_result (Value.str p.step_result) _ h3
    ∙ lookup-set_field_other key n.current_step (Value.str p.current_step) Value.end h4

pub lookup-report_cells :
    (key : String) (names : Names) (kind : Kind) (p : WritebackPatch) (fields : Fields)
    → IsApart key (report_names names kind)
    → lookup key (report_cells names kind p fields) ≡ lookup key fields
unfolding report_cells
lookup-report_cells key names Kind.task p fields h =
    let (h1, r1) = or_false _ _ h in
    lookup-set_if_other key names.task.execution_summary (p.execution_report <|> p.summary) fields
      h1
lookup-report_cells key names Kind.bug p fields h =
    let (h1, r1) = or_false _ _ h in
    let (h2, r2) = or_false _ _ r1 in
    lookup-set_if_other key names.bug.fix_result (fix_text p.bug_fix_result) _ h1
    ∙ lookup-set_if_other key names.bug.fix_method (p.execution_report <|> p.summary) fields h2

lookup-if-set_field :
    (b : Bool) (key k : String) (v : Value) (fields : Fields)
    → (k == key) ≡ false
    → lookup key (if b then set_field k v fields else fields) ≡ lookup key fields
lookup-if-set_field true key k v fields h = lookup-set_field_other key k v fields h
lookup-if-set_field false key k v fields h = refl

-- The names without the one in fifth place.
progress-IsApart :
    (key : String) (names : Names) (kind : Kind)
    → IsApart key (written_names names kind)
    → let n = shared_names names kind in
      IsApart key (n.last_event_at ∷ n.next_action ∷ n.step_result ∷ n.current_step ∷ [])
      × ((n.started_at == key) ≡ false)
      × IsApart key (report_names names kind)
progress-IsApart key names kind h =
    let n = shared_names names kind in
    let (h1, r1) = or_false (n.last_event_at == key) _ h in
    let (h2, r2) = or_false (n.next_action == key) _ r1 in
    let (h3, r3) = or_false (n.step_result == key) _ r2 in
    let (h4, r4) = or_false (n.current_step == key) _ r3 in
    let (h5, r5) = or_false (n.started_at == key) _ r4 in (ground (arith, h1, h2, h3, h4), h5, r5)

module _ (names : Names) (kind : Kind) (p : WritebackPatch) (current : Option String) (row : Row)
    (time : Value) where
  lookup-next_fields-status_part :
      (key : String)
      → IsApart key (written_names names kind)
      → lookup key (next_fields names kind p current row time)
        ≡ lookup key (
            set_if
              (changed_status p.status current)
              (shared_names names kind).status
              (progress_cells (shared_names names kind) p time))
  unfolding next_fields
  lookup-next_fields-status_part key h =
      let n = shared_names names kind in
      let (h1, h2, h3) = progress-IsApart key names kind h in
      lookup-report_cells key names kind p _ h3
      ∙ lookup-if-set_field (starts p (cell row n.started_at)) key n.started_at time _ h2

  -- A plan writes the status that its patch changes, and no other.
  pub lookup-next_fields-status :
      IsApart (shared_names names kind).status (written_names names kind)
      → lookup (shared_names names kind).status (next_fields names kind p current row time)
        ≡ text_cell (changed_status p.status current)
  lookup-next_fields-status h =
      let n = shared_names names kind in
      let e =
        lookup-progress_cells n.status n p time ((progress-IsApart n.status names kind h).0) in
      lookup-next_fields-status_part n.status h
      ∙ lookup-set_if n.status (changed_status p.status current) (progress_cells n p time)
      ∙ ap (λ o. text_cell (changed_status p.status current) <|> o) e
      ∙ or_none (text_cell (changed_status p.status current))
    where
      or_none : {A : Type 0} (o : Option A) → (o <|> none) ≡ o
      or_none none = refl
      or_none (some a) = refl

  -- A plan writes no other column.
  pub lookup-next_fields-other :
      (key : String)
      → ((shared_names names kind).status == key) ≡ false
      → IsApart key (written_names names kind)
      → lookup key (next_fields names kind p current row time) ≡ none
  lookup-next_fields-other key hs h =
      let n = shared_names names kind in
      lookup-next_fields-status_part key h
      ∙ lookup-set_if_other key n.status (changed_status p.status current) _ hs
      ∙ lookup-progress_cells key n p time ((progress-IsApart key names kind h).0)
