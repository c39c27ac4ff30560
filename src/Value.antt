-- ===== src/Value.antt =====
-- Values of the TypeScript type `unknown` that come from JSON or YAML, and the reads that the sources
-- make of them. `undefined` is `none`. A number stands as the text that `String(n)` gives.
pub mod Laws
use assistant_context_router.Prelude.{
  String, Bool, true, false, Option, none, some, List, [], ◌∷◌, ◌==◌, if◌then◌else◌,
}
use assistant_context_router.Text.{is_empty, trim}

mutual
  pub data Value : Type 0 where
    null : Value
    bool : Bool → Value
    num : String → Value
    str : String → Value
    arr : Items → Value
    obj : Fields → Value

  pub data Fields : Type 0 where
    end : Fields
    field : String → Value → Fields → Fields

  pub data Items : Type 0 where
    nil : Items
    cons : Value → Items → Items

-- `fields[key]`
unfoldable pub lookup : String → Fields → Option Value
lookup key end = none
lookup key (field k v rest) = if k == key then some v else lookup key rest

-- `value?.[key]`: only an object has the keys that the sources read.
unfoldable pub get : String → Option Value → Option Value
unfolding lookup
get key (some (obj fields)) = lookup key fields
get key (some null) = none
get key (some (bool b)) = none
get key (some (num n)) = none
get key (some (str s)) = none
get key (some (arr vs)) = none
get key none = none

abbrev pub items : Items → List Value
items nil = []
items (cons v vs) = v ∷ items vs

-- A string that is not blank, trimmed: `typeof value === "string" && value.trim()`.
unfoldable pub as_string : Option Value → Option String
as_string (some (str s)) = let t = trim s in if is_empty t then none else some t
as_string (some null) = none
as_string (some (bool b)) = none
as_string (some (num n)) = none
as_string (some (arr vs)) = none
as_string (some (obj fs)) = none
as_string none = none

-- The first of the values that is a string and not blank.
unfoldable pub pick_string : List (Option Value) → Option String
unfolding as_string
pick_string [] = none
pick_string (v ∷ vs) = elim (as_string v) [ some s ↦ some s | none ↦ pick_string vs ]

-- `value && typeof value === "object" && !Array.isArray(value)`: the fields, or null.
unfoldable pub object_or_null : Option Value → Option Fields
object_or_null (some (obj fields)) = some fields
object_or_null (some null) = none
object_or_null (some (bool b)) = none
object_or_null (some (num n)) = none
object_or_null (some (str s)) = none
object_or_null (some (arr vs)) = none
object_or_null none = none

-- `{ ...fields, [key]: value }`: an existing key keeps its place.
unfoldable pub set_field : String → Value → Fields → Fields
set_field key v end = field key v end
set_field key v (field k w rest) =
    let more = set_field key v rest in if k == key then field k v rest else field k w more

-- `typeof value === "boolean"`
unfoldable pub as_bool : Option Value → Option Bool
as_bool (some (bool b)) = some b
as_bool (some null) = none
as_bool (some (num n)) = none
as_bool (some (str s)) = none
as_bool (some (arr vs)) = none
as_bool (some (obj fs)) = none
as_bool none = none

-- The text of a string, number or boolean: `String(value)`, trimmed for a string.
unfoldable pub plain_text : Value → Option String
plain_text (str s) = some (trim s)
plain_text (num n) = some n
plain_text (bool true) = some "true"
plain_text (bool false) = some "false"
plain_text null = none
plain_text (arr vs) = none
plain_text (obj fs) = none

-- `{ ...fields, ...updates }`
unfoldable pub merge_fields : Fields → Fields → Fields
unfolding set_field
merge_fields end fields = fields
merge_fields (field k v rest) fields = set_field k v (merge_fields rest fields)
