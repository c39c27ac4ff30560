-- ===== src/Feishu/Metadata.antt =====
-- adapters/feishu/src/task-bug-writeback.ts: the tables and columns that the adapter writes to, the
-- checks on them, and the client (work-surfaces/feishu/src/lark-cli-base.ts) as an interface.
pub mod Checks
use Prim.Native.String
use assistant_context_router.Prelude.{
  ℕ, String, Bool, true, false, not, ◌&&◌, ◌||◌, Option, none, some, List, [], ◌∷◌, map, ◌==◌,
  ◌<|>◌, if◌then◌else◌, and_then, or_else, is_some, any, filter, find?,
}
use assistant_context_router.Text.{is_empty, trim, join, ◌⧺◌}
use assistant_context_router.Value
use assistant_context_router.Value.{Value, Fields, Items, get, items, object_or_null}
use assistant_context_router.Feishu.Attempt.{Attempt, returned, thrown, ◌>>=◌, ◌>>◌, expect}
use assistant_context_router.Feishu.Texts.{Kind, normalize_text_value}
use assistant_context_router.Feishu.Names.{Names, required_task_fields, required_bug_fields}

pub record Table : Type 0 where
  pub table_id : String
  pub name : String

-- A column's description, with the entries that are read.
pub record Field : Type 0 where
  pub field_name : Option Value
  pub kind : Option Value
  pub options : Option Value
  pub property : Option Value

pub record Row : Type 0 where
  pub record_id : String
  pub fields : Option Fields

-- What the adapter calls of the client; the world is what the calls read and change.
pub record Client (World : Type 0) : Type 0 where
  pub list_tables : World → Attempt (List Table)
  pub list_fields : String → World → Attempt (List Field)
  pub list_records : String → ℕ → World → Attempt (List Row)
  pub upsert_record : String → String → Fields → World → Attempt Value × World

abbrev has_text_name : Field → Bool
has_text_name field = elim (field.field_name) [
  | some (Value.str s) ↦ not (is_empty (trim s))
  | _ ↦ false
]

abbrev name_text : Field → String
name_text field = elim (field.field_name) [ some (Value.str s) ↦ s | _ ↦ "" ]

-- The columns that have a name, each with it.
unfoldable pub index_fields_by_name : List Field → List (String × Field)
index_fields_by_name fields = map (λ field. (name_text field, field)) (filter has_text_name fields)

-- `fieldsByName[name]`: of two columns with one name the later one is found. That JavaScript finds the
-- names of `Object.prototype` in every object is left out.
unfoldable pub field_named : String → List (String × Field) → Option Field
field_named name [] = none
field_named name ((n, field) ∷ rest) =
    field_named name rest <|> (if n == name then some field else none)

unfoldable pub find_table : List Table → String → Option Table
find_table tables target = find? (λ t. (t.table_id == target) || (t.name == target)) tables

unfoldable pub missing_fields : List (String × Field) → List String → List String
unfolding field_named
missing_fields by_name names = filter (λ n. not (is_some (field_named n by_name))) names

abbrev pub throw_if_any : List String → String → Attempt (Unit {0})
throw_if_any [] message = returned tt
throw_if_any (m ∷ missing) message = thrown message

unfoldable pub require_fields : List (String × Field) → List String → String → Attempt (Unit {0})
unfolding missing_fields
require_fields by_name names context =
    throw_if_any (missing_fields by_name names)
      ("missing-feishu-fields:" ⧺ context ⧺ ":" ⧺ join "," (missing_fields by_name names))

-- The elements of a value, none if it is no array.
abbrev array_or_empty : Option Value → List Value
array_or_empty (some (Value.arr vs)) = items vs
array_or_empty _ = []

abbrev option_name : Value → String
option_name option = elim (get "name" (some option)) [ some (Value.str s) ↦ trim s | _ ↦ "" ]

abbrev or_if_empty : List Value → List Value → List Value
or_if_empty [] other = other
or_if_empty (v ∷ vs) other = v ∷ vs

unfoldable pub get_select_option_names : Field → List String
get_select_option_names field =
    filter (λ n. not (is_empty n))
      (map option_name (
        or_if_empty (array_or_empty field.options) (array_or_empty (get "options" field.property))))

abbrev pub is_select : Field → Bool
is_select field = elim (field.kind) [ some (Value.str s) ↦ s == "select" | _ ↦ false ]

abbrev pub is_empty_list : List String → Bool
is_empty_list [] = true
is_empty_list (s ∷ rest) = false

-- A value passes where its column is unknown or no select, where it is blank, where the column names no
-- options, or where it is one of them.
unfoldable pub is_covered : List (String × Field) → String → Value → Bool
unfolding field_named get_select_option_names
is_covered by_name name value = elim (field_named name by_name) [
  | none ↦ true
  | some field ↦
      not (is_select field)
      || is_empty (normalize_text_value (some value))
      || is_empty_list (get_select_option_names field)
      || any (λ n. n == normalize_text_value (some value)) (get_select_option_names field)
]

unfoldable pub uncovered : List (String × Field) → Fields → List String
unfolding is_covered
uncovered by_name Value.end = []
uncovered by_name (Value.field name value rest) =
    let more = uncovered by_name rest in
    if is_covered by_name name value
    then more
    else (name ⧺ "=" ⧺ normalize_text_value (some value)) ∷ more

abbrev pub kind_text : Kind → String
kind_text Kind.task = "task"
kind_text Kind.bug = "bug"

unfoldable pub validate_select_coverage : Kind → List (String × Field) → Fields → Attempt (Unit {0})
unfolding uncovered
validate_select_coverage kind by_name next_fields = throw_if_any (uncovered by_name next_fields) (
    "missing-feishu-enum-options:"
    ⧺ kind_text kind
    ⧺ ":"
    ⧺ join "," (uncovered by_name next_fields))

-- `typeof value === "string"`
abbrev text_or_null : Option Value → Option String
text_or_null (some (Value.str s)) = some s
text_or_null _ = none

abbrev first_item : Option Value → Option Value
first_item (some (Value.arr (Value.cons v vs))) = some v
first_item _ = none

-- `record_id`, or the first of `record_id_list`.
abbrev id_in : Option Value → Option String
id_in payload =
    text_or_null (get "record_id" payload)
    <|> text_or_null (first_item (get "record_id_list" payload))

unfoldable pub extract_record_id : Option Value → Option String
extract_record_id payload =
    id_in payload
    <|> id_in (get "record" payload)
    <|> id_in (get "data" payload)
    <|> id_in (get "record" (get "data" payload))

pub record Metadata : Type 0 where
  pub tasks_table : Table
  pub bugs_table : Table
  pub task_fields : List (String × Field)
  pub bug_fields : List (String × Field)

-- The columns of the two tables, all that the adapter uses among them.
unfoldable pub checked_metadata : Names → Table → Table → List Field → List Field → Attempt Metadata
unfolding index_fields_by_name require_fields
checked_metadata names tasks_table bugs_table task_fields bug_fields = do
  require_fields (index_fields_by_name task_fields) (required_task_fields names.task) "tasks"
  require_fields (index_fields_by_name bug_fields) (required_bug_fields names.bug) "bugs"
  returned (record {
    tasks_table = tasks_table;
    bugs_table = bugs_table;
    task_fields = index_fields_by_name task_fields;
    bug_fields = index_fields_by_name bug_fields;
  })

unfoldable pub read_columns :
    {World : Type 0} → Client World → Names → World → Table → Table → Attempt Metadata
unfolding checked_metadata
read_columns client names w tasks_table bugs_table = do
  task_fields ← client.list_fields tasks_table.table_id w
  bug_fields ← client.list_fields bugs_table.table_id w
  checked_metadata names tasks_table bugs_table task_fields bug_fields

unfoldable pub read_tables :
    {World : Type 0} → Client World → Names → World → List Table → Attempt Metadata
unfolding find_table read_columns
read_tables client names w tables = do
  tasks_table ← expect ("missing-feishu-table:tasks:" ⧺ names.tasks) (find_table tables names.tasks)
  bugs_table ← expect ("missing-feishu-table:bugs:" ⧺ names.bugs) (find_table tables names.bugs)
  read_columns client names w tasks_table bugs_table

-- `inspectMetadata`; the adapter keeps the answer, also a failure.
unfoldable pub inspect_metadata : {World : Type 0} → Client World → Names → World → Attempt Metadata
unfolding read_tables
inspect_metadata client names w = do
  tables ← client.list_tables w
  read_tables client names w tables

abbrev pub table_id_of : Metadata → Kind → String
table_id_of m Kind.task = m.tasks_table.table_id
table_id_of m Kind.bug = m.bugs_table.table_id

abbrev pub fields_of : Metadata → Kind → List (String × Field)
fields_of m Kind.task = m.task_fields
fields_of m Kind.bug = m.bug_fields

-- `record.fields?.[name]`
abbrev pub cell : Row → String → Option Value
cell row name = get name (and_then row.fields (λ fields. some (Value.obj fields)))
