-- ===== src/Projects.antt =====
-- core/src/projects/registry.ts: the projects of an index file, their ids, and how far two names are
-- apart. Paths are those of the host's `path` module; texts are read by code points, not by UTF-16
-- units.
pub mod Scripts
pub mod Search
use Prim.Native.Char.{Char, code}
use Prim.Native.String.{[], ◌∷◌}
use mathlib.Core.List
use assistant_context_router.Prelude.{
  ℕ, zero, suc, ◌+◌, String, Bool, true, false, Option, none, some, List, ◌==◌, nat_eq, ltb,
  if◌then◌else◌, find?, and_then,
}
use assistant_context_router.Text.{is_empty, trim, text_length}
use assistant_context_router.Value
use assistant_context_router.Value.{Value, get, items}
use assistant_context_router.Host.{Host}

pub record ProjectRegistryEntry : Type 0 where
  pub project_id : String
  pub title : Option String
  pub kind : Option String
  pub status : Option String
  pub owner : Option String
  pub cadence : Option String
  pub file : String
  pub absolute_file_path : String
  pub project_root : String

-- `path.dirname(path)`, `path.resolve(root, file)`
pub record Paths : Type 0 where
  pub dirname : String → String
  pub resolve : String → String → String

unfoldable pub normalize_project_token : Host → String → String
normalize_project_token host value = host.to_lower (trim value)

-- A string that is not blank, as it stands.
unfoldable pub present_text : Option Value → Option String
present_text (some (Value.str s)) = if is_empty (trim s) then none else some s
present_text (some Value.null) = none
present_text (some (Value.bool b)) = none
present_text (some (Value.num n)) = none
present_text (some (Value.arr vs)) = none
present_text (some (Value.obj fs)) = none
present_text none = none

-- The entry of one project of the index, if it names a file and an id.
unfoldable pub entry_of : Paths → String → Value → Option ProjectRegistryEntry
unfolding present_text
entry_of paths registry_path project =
    let read = λ (key : String). present_text (get key (some project)) in
    and_then (read "file") (λ file. and_then (read "project_id") (λ id. some (record {
      project_id = id;
      title = read "title";
      kind = read "type";
      status = read "status";
      owner = read "owner";
      cadence = read "cadence";
      file = file;
      absolute_file_path = paths.resolve (paths.dirname registry_path) file;
      project_root = paths.dirname (paths.resolve (paths.dirname registry_path) file);
    })))

abbrev elements : Option Value → List Value
elements (some (Value.arr vs)) = items vs
elements _ = List.[]

abbrev pub is_null : Value → Bool
is_null value = elim value [ Value.null ↦ true | _ ↦ false ]

-- A project that is null throws, which is `none`.
unfoldable pub entries_of : Paths → String → List Value → Option (List ProjectRegistryEntry)
unfolding entry_of
entries_of paths registry_path List.[] = some List.[]
entries_of paths registry_path (List.◌∷◌ project projects) =
    let rest = entries_of paths registry_path projects in
    if is_null project
    then none
    else and_then rest (λ entries. elim (entry_of paths registry_path project) [
      | none ↦ some entries
      | some entry ↦ some (List.◌∷◌ entry entries)
    ])

-- The entries of the parsed index file.
unfoldable pub load_project_index : Paths → String → Value → Option (List ProjectRegistryEntry)
unfolding entries_of
load_project_index paths registry_path parsed =
    entries_of paths registry_path (elements (get "projects" (some parsed)))

-- The first project with the id, up to case and the space around it; `some none` without one.
unfoldable pub get_project_by_id :
    Host → Paths → String → Value → String → Option (Option ProjectRegistryEntry)
unfolding load_project_index normalize_project_token
get_project_by_id host paths registry_path parsed project_id =
    and_then (load_project_index paths registry_path parsed) (λ entries. some (
      find?
        (λ entry.
          normalize_project_token host entry.project_id == normalize_project_token host project_id)
        entries))

abbrev pub least : ℕ → ℕ → ℕ
least a b = if ltb b a then b else a

abbrev pub substitution_cost : Char → Char → ℕ
substitution_cost x y = if nat_eq (code x) (code y) then 0 else 1

-- The row of the table for no characters of the first text: `col` from a start on.
unfoldable pub first_row : ℕ → String → List ℕ
first_row n [] = List.◌∷◌ n List.[]
first_row n (y ∷ b) = List.◌∷◌ n (first_row (suc n) b)

-- The rest of a row for one more character `x`, from the cell `left` on, by the row above from the cell
-- above `left` on.
unfoldable pub next_row : Char → String → List ℕ → ℕ → List ℕ
next_row x (y ∷ b) (List.◌∷◌ diagonal (List.◌∷◌ above row)) left = List.◌∷◌ left (
    next_row x b (List.◌∷◌ above row)
      (least (least (suc above) (suc left)) (diagonal + substitution_cost x y)))
next_row x [] row left = List.◌∷◌ left List.[]
next_row x (y ∷ b) List.[] left = List.◌∷◌ left List.[]
next_row x (y ∷ b) (List.◌∷◌ diagonal List.[]) left = List.◌∷◌ left List.[]

-- The last row, from the row for so many characters on.
unfoldable pub last_row : String → String → ℕ → List ℕ → List ℕ
unfolding next_row
last_row [] b n row = row
last_row (x ∷ a) b n row = last_row a b (suc n) (next_row x b row (suc n))

-- The last cell.
unfoldable pub last_cell : List ℕ → ℕ
last_cell List.[] = 0
last_cell (List.◌∷◌ n List.[]) = n
last_cell (List.◌∷◌ n (List.◌∷◌ m row)) = last_cell (List.◌∷◌ m row)

unfoldable pub levenshtein_distance : String → String → ℕ
unfolding first_row last_row last_cell
levenshtein_distance a b =
    if a == b
    then 0
    else if is_empty a
    then text_length b
    else if is_empty b
    then text_length a
    else last_cell (last_row a b 0 (first_row 0 b))
