-- ===== src/Tests/Tables.antt =====
-- A sample table with its columns, and the checks and policies on it.
use assistant_context_router.Prelude.{
  ℕ, suc, String, true, Option, none, some, List, [], ◌∷◌, ◌++◌, ◌≡◌, refl, ap, sym, ◌⊎◌, any, All,
  ◌==◌, map,
}
use assistant_context_router.Value
use assistant_context_router.Value.{Value, Fields, lookup}
use assistant_context_router.Types.Routing.{AcceptanceMode, CompletionNotifyMode, StartMode}
use assistant_context_router.Text.{trim, trim_start, trim_end, is_space}
use assistant_context_router.Feishu.Attempt.{returned, returned_inj}
use assistant_context_router.Feishu.Texts.{
  Kind, normalize_text_value, resolve_targets, normalize_acceptance_override,
  normalize_completion_notify_override,
}
use assistant_context_router.Feishu.Texts.Bounds.{IsWithin}
use assistant_context_router.Feishu.Names.{default_names, required_task_fields, required_bug_fields}
use assistant_context_router.Feishu.Metadata.{
  Field, Row, Client, Metadata, validate_select_coverage, uncovered, is_covered, field_named,
  get_select_option_names, inspect_metadata, read_tables, read_columns, checked_metadata,
  require_fields, missing_fields, find_table, index_fields_by_name, cell,
}
use assistant_context_router.Feishu.Metadata.Checks.{
  HasColumns, validate_select_coverage-returned, inspect_metadata-returned,
}
use assistant_context_router.Feishu.Patch.{derive_writeback_patch}
use assistant_context_router.Feishu.Patch.Report.{derive_writeback_patch-IsWithin}
use assistant_context_router.Feishu.Policy.{PolicySource, resolve_task_bug_policy}
use assistant_context_router.Feishu.Policy.Precedence.{
  first_set, own, router_default, resolve_task_bug_policy-precedence,
}
use assistant_context_router.Feishu.Writeback.{run_writeback, find_target_record, patch_input}
use assistant_context_router.Feishu.Writeback.Lifecycle.{row_of}
use assistant_context_router.Feishu.Writeback.Runs.{IsArchivedTarget, run_writeback-archived}
use assistant_context_router.Tests.Samples.{sample_host}
use assistant_context_router.Tests.Feishu.{
  plain_config, task_target, completion, archived, acceptance, doing,
}

derive_writeback_patch-IsWithin_example :
    IsWithin 900
      (derive_writeback_patch sample_host (
        patch_input completion default_names Kind.task
          (row_of sample_host default_names [] task_target doing))).summary
    × IsWithin 1800
        (derive_writeback_patch sample_host (
          patch_input completion default_names Kind.task
            (row_of sample_host default_names [] task_target doing))).execution_report
derive_writeback_patch-IsWithin_example = derive_writeback_patch-IsWithin sample_host (
    patch_input completion default_names Kind.task
      (row_of sample_host default_names [] task_target doing))

abbrev manual_cell : Option Value
manual_cell = some (Value.str "人工验收")

resolve_task_bug_policy-precedence_example :
    let p = resolve_task_bug_policy plain_config manual_cell none in
    ((p.acceptance_mode_source, p.acceptance_mode)
      ≡ first_set
          ((PolicySource.row_override, own (normalize_acceptance_override manual_cell))
            ∷ (PolicySource.router_default, router_default plain_config (λ d. d.acceptance_mode))
            ∷ [])
          AcceptanceMode.manual_acceptance)
    × ((p.completion_notify_mode_source, p.completion_notify_mode)
        ≡ first_set
            ((PolicySource.row_override, own (normalize_completion_notify_override none))
              ∷ (
                PolicySource.router_default,
                router_default plain_config (λ d. d.completion_notify_mode),
              )
              ∷ [])
            CompletionNotifyMode.no_dm_on_completion_boundary)
    × ((p.start_mode_source, p.start_mode)
        ≡ first_set
            ((PolicySource.router_default, router_default plain_config (λ d. d.start_mode)) ∷ [])
            StartMode.manual_only)
resolve_task_bug_policy-precedence_example =
    resolve_task_bug_policy-precedence plain_config manual_cell none

abbrev column : String → Field
column name = record {
  field_name = some (Value.str name);
  kind = none;
  options = none;
  property = none;
}

abbrev status_column : Field
status_column = record {
  field_name = some (Value.str "状态");
  kind = some (Value.str "select");
  options = some (
      Value.arr
        (Value.cons (Value.obj (Value.field "name" (Value.str "Done") Value.end)) Value.nil));
  property = none;
}

abbrev done_cells : Fields
done_cells = Value.field "状态" (Value.str "Done") Value.end

validate_select_coverage-returned_example :
    (normalize_text_value (some (Value.str "Done")) ≡ "")
    ⊎ (any
          (λ n. n == normalize_text_value (some (Value.str "Done")))
          (get_select_option_names status_column)
        ≡ true)
unfolding validate_select_coverage uncovered is_covered field_named get_select_option_names
    normalize_text_value lookup Value.get trim trim_start trim_end is_space
validate_select_coverage-returned_example =
    validate_select_coverage-returned Kind.task (("状态", status_column) ∷ []) done_cells "状态"
      (Value.str "Done") status_column refl refl refl refl (λ h. cc)

abbrev archived_row : Row
archived_row = record { record_id = "rec1"; fields = some archived }

-- Tables with one archived task; the world counts the updates.
abbrev sample_client : Client ℕ
sample_client = record {
  list_tables = λ w.
      returned (
        record { table_id = "t1"; name = "Tasks" }
        ∷ record { table_id = "t2"; name = "Bugs" }
        ∷ []);
  list_fields = λ table w. returned (
      map column
        (required_task_fields default_names.task ++ required_bug_fields default_names.bug));
  list_records = λ table limit w. returned (archived_row ∷ []);
  upsert_record = λ table id cells w. (returned Value.null, suc w);
}

abbrev sample_columns : List (String × Field)
sample_columns =
    map (λ n. (n, column n))
      (required_task_fields default_names.task ++ required_bug_fields default_names.bug)

abbrev sample_metadata : Metadata
sample_metadata = record {
  tasks_table = record { table_id = "t1"; name = "Tasks" };
  bugs_table = record { table_id = "t2"; name = "Bugs" };
  task_fields = sample_columns;
  bug_fields = sample_columns;
}

inspected : inspect_metadata sample_client default_names 0 ≡ returned sample_metadata
unfolding inspect_metadata read_tables read_columns checked_metadata require_fields missing_fields
    find_table index_fields_by_name field_named trim trim_start trim_end is_space
inspected = refl

inspect_metadata-returned_example : HasColumns default_names sample_metadata
inspect_metadata-returned_example =
    inspect_metadata-returned default_names sample_client 0 sample_metadata inspected

targets-IsArchivedTarget :
    All
      (IsArchivedTarget sample_host sample_client default_names 0)
      (resolve_targets acceptance.envelope.parameters)
unfolding find_target_record resolve_targets Value.get lookup Value.pick_string Value.as_string
    normalize_text_value trim trim_start trim_end is_space
targets-IsArchivedTarget = (
  (λ metadata row h.
      ap (λ r. normalize_text_value (cell r "状态")) (sym (returned_inj archived_row row h))),
  tt,
)

run_writeback-archived_example :
    (run_writeback sample_host sample_client default_names true acceptance 7 0).1 ≡ 0
run_writeback-archived_example =
    run_writeback-archived sample_host sample_client default_names acceptance 7 0 true
      targets-IsArchivedTarget
