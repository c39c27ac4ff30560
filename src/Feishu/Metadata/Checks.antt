-- ===== src/Feishu/Metadata/Checks.antt =====
-- What the checks on columns and values let through.
use assistant_context_router.Prelude.{
  String, true, not, ◌||◌, some, List, [], ◌∷◌, ◌≡◌, ◌≢◌, refl, subst, ap, ◌==◌, inl, inr, ◌⊎◌,
  or_else, is_some, any, All, Bool-cases, eq_iff,
}
use assistant_context_router.Text.{is_empty, ◌⧺◌, join}
use assistant_context_router.Value
use assistant_context_router.Value.{Value, Fields, lookup}
use assistant_context_router.Feishu.Attempt.{
  returned, thrown, bind-returned, returned_inj, ◌>>=◌, ◌>>◌, expect,
}
use assistant_context_router.Feishu.Texts.{Kind, normalize_text_value}
use assistant_context_router.Feishu.Names.{Names, required_task_fields, required_bug_fields}
use assistant_context_router.Feishu.Metadata.{
  Field, Table, Client, Metadata, field_named, missing_fields, require_fields, is_covered,
  uncovered, validate_select_coverage, throw_if_any, is_select, is_empty_list,
  get_select_option_names, kind_text, inspect_metadata, checked_metadata, read_columns, read_tables,
  index_fields_by_name, find_table,
}

throw_if_any-returned :
    (missing : List String) (message : String)
    → throw_if_any missing message ≡ returned tt
    → missing ≡ []
throw_if_any-returned [] message h = refl
throw_if_any-returned (m ∷ missing) message h = cc

missing_fields-empty :
    (by_name : List (String × Field)) (names : List String)
    → missing_fields by_name names ≡ []
    → All (λ n. is_some (field_named n by_name) ≡ true) names
unfolding missing_fields
missing_fields-empty by_name [] h = tt
missing_fields-empty by_name (n ∷ names) h = elim (Bool-cases (is_some (field_named n by_name))) [
  | inl t ↦ (t, missing_fields-empty by_name names (rw t at h))
  | inr f ↦ let e = rw f at h in cc
]

require_fields-returned :
    (by_name : List (String × Field)) (names : List String) (context : String)
    → require_fields by_name names context ≡ returned tt
    → All (λ n. is_some (field_named n by_name) ≡ true) names
unfolding require_fields
require_fields-returned by_name names context h =
    missing_fields-empty by_name names (throw_if_any-returned (missing_fields by_name names) _ h)

option_inj : (v w : Value) → some v ≡ some w → v ≡ w
option_inj v w h = ap (λ o. or_else o v) h

uncovered-covered :
    (by_name : List (String × Field)) (fields : Fields) (name : String) (value : Value)
    → uncovered by_name fields ≡ []
    → lookup name fields ≡ some value
    → is_covered by_name name value ≡ true
unfolding uncovered lookup
uncovered-covered by_name Value.end name value h l = cc
uncovered-covered by_name (Value.field k v rest) name value h l =
    elim (Bool-cases (is_covered by_name k v)) [
      | inr f ↦ let e = rw f at h in cc
      | inl t ↦ elim (Bool-cases (k == name)) [
        | inl same ↦ rw ((eq_iff k name).0 same) at (rw (option_inj v value (rw same at l)) at t)
        | inr other ↦ uncovered-covered by_name rest name value (rw t at h) (rw other at l)
      ]
    ]

covers :
    (field : Field) (text : String) (options : List String)
    → field.kind ≡ some (Value.str "select")
    → options ≢ []
    → (not (is_select field)
        || is_empty text
        || is_empty_list options
        || any (λ n. n == text) options)
      ≡ true
    → (text ≡ "") ⊎ (any (λ n. n == text) options ≡ true)
covers field String.[] options s o h = inl refl
covers field (String.◌∷◌ c t) [] s o h = elim (o refl) [ ]
covers field (String.◌∷◌ c t) (n ∷ options) s o h = inr (rw s at h)

-- After the check, the text of every planned value for a select column that names options is blank or
-- one of them.
pub validate_select_coverage-returned :
    (kind : Kind) (by_name : List (String × Field)) (fields : Fields) (name : String)
    (value : Value) (field : Field)
    → validate_select_coverage kind by_name fields ≡ returned tt
    → lookup name fields ≡ some value
    → field_named name by_name ≡ some field
    → field.kind ≡ some (Value.str "select")
    → get_select_option_names field ≢ []
    → (normalize_text_value (some value) ≡ "")
      ⊎ (any (λ n. n == normalize_text_value (some value)) (get_select_option_names field) ≡ true)
unfolding validate_select_coverage is_covered
validate_select_coverage-returned kind by_name fields name value field h l f s o =
    covers field (normalize_text_value (some value)) (get_select_option_names field) s o (
      rw (f, is_covered) at
        (uncovered-covered by_name fields name value
          (throw_if_any-returned (uncovered by_name fields) _ h) l))

throw_if_any-cases :
    (missing : List String) (message : String)
    → ((missing ≡ []) × (throw_if_any missing message ≡ returned tt))
      ⊎ ((missing ≢ []) × (throw_if_any missing message ≡ thrown message))
throw_if_any-cases [] message = inl (refl, refl)
throw_if_any-cases (m ∷ missing) message = inr (λ e. cc, refl)

-- The error that names every uncovered cell.
abbrev pub uncovered_error : Kind → List (String × Field) → Fields → String
uncovered_error kind by_name fields =
    "missing-feishu-enum-options:" ⧺ kind_text kind ⧺ ":" ⧺ join "," (uncovered by_name fields)

-- The check passes when every cell is covered, and throws the uncovered ones when not.
pub validate_select_coverage-cases :
    (kind : Kind) (by_name : List (String × Field)) (fields : Fields)
    → ((uncovered by_name fields ≡ [])
        × (validate_select_coverage kind by_name fields ≡ returned tt))
      ⊎ ((uncovered by_name fields ≢ [])
          × (validate_select_coverage kind by_name fields
              ≡ thrown (uncovered_error kind by_name fields)))
unfolding validate_select_coverage
validate_select_coverage-cases kind by_name fields =
    throw_if_any-cases (uncovered by_name fields) (uncovered_error kind by_name fields)

module _ (names : Names) where
  -- The columns that the adapter uses are there.
  abbrev pub HasColumns : Metadata → Type 0
  HasColumns m =
      All (λ n. is_some (field_named n m.task_fields) ≡ true) (required_task_fields names.task)
      × All (λ n. is_some (field_named n m.bug_fields) ≡ true) (required_bug_fields names.bug)

  checked_metadata-returned :
      (tasks bugs : Table) (task_fields bug_fields : List Field) (m : Metadata)
      → checked_metadata names tasks bugs task_fields bug_fields ≡ returned m
      → HasColumns m
  unfolding checked_metadata
  checked_metadata-returned tasks bugs task_fields bug_fields m h =
      let found : Metadata = record {
        tasks_table = tasks;
        bugs_table = bugs;
        task_fields = index_fields_by_name task_fields;
        bug_fields = index_fields_by_name bug_fields;
      } in
      let of_bugs =
        require_fields (index_fields_by_name bug_fields) (required_bug_fields names.bug) "bugs" in
      let (u, e, h1) =
        bind-returned
          (require_fields (index_fields_by_name task_fields) (required_task_fields names.task)
            "tasks")
          (λ u. of_bugs >> returned found) m h in
      let (v, f, h2) = bind-returned of_bugs (λ v. returned found) m h1 in
      subst HasColumns (returned_inj found m h2) (
        require_fields-returned (index_fields_by_name task_fields) (required_task_fields names.task)
            "tasks" e,
        require_fields-returned (index_fields_by_name bug_fields) (required_bug_fields names.bug)
            "bugs" f,
      )

  module _ {World : Type 0} (client : Client World) (w : World) (m : Metadata) where
    read_columns-returned :
        (tasks bugs : Table) → read_columns client names w tasks bugs ≡ returned m → HasColumns m
    unfolding read_columns
    read_columns-returned tasks bugs h =
        let (task_fields, e, h1) =
          bind-returned (client.list_fields tasks.table_id w)
            (λ ts.
              client.list_fields bugs.table_id w >>= λ bs. checked_metadata names tasks bugs ts bs)
            m h in
        let (bug_fields, f, h2) =
          bind-returned (client.list_fields bugs.table_id w)
            (λ bs. checked_metadata names tasks bugs task_fields bs) m h1 in
        checked_metadata-returned tasks bugs task_fields bug_fields m h2

    read_tables-returned :
        (tables : List Table) → read_tables client names w tables ≡ returned m → HasColumns m
    unfolding read_tables
    read_tables-returned tables h =
        let of_bugs =
          expect ("missing-feishu-table:bugs:" ⧺ names.bugs) (find_table tables names.bugs) in
        let (tasks, e, h1) =
          bind-returned
            (expect ("missing-feishu-table:tasks:" ⧺ names.tasks) (find_table tables names.tasks))
            (λ t. of_bugs >>= λ b. read_columns client names w t b) m h in
        let (bugs, f, h2) = bind-returned of_bugs (λ b. read_columns client names w tasks b) m h1 in
        read_columns-returned tasks bugs h2

    -- Metadata is only ever read of tables that have every column that the adapter uses.
    pub inspect_metadata-returned : inspect_metadata client names w ≡ returned m → HasColumns m
    unfolding inspect_metadata
    inspect_metadata-returned h =
        let (tables, e, h1) =
          bind-returned (client.list_tables w) (λ ts. read_tables client names w ts) m h in
        read_tables-returned tables h1
