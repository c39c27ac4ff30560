-- ===== src/Yaml/Blocks.antt =====
-- core/src/lib/simple-yaml.ts: blocks, sequences and mappings. The lines from the index on are a list,
-- and a call answers with its value and the lines that it leaves. The loops and the recursion stand on
-- fuel; `none` is fuel that ran out.
pub mod Termination
pub mod Flat
use Prim.Native.Char.{code}
use Prim.Native.String
use assistant_context_router.Prelude.{
  ℕ, zero, suc, ◌+◌, ◌*◌, String, Bool, true, false, not, ◌&&◌, ◌||◌, Option, none, some, List, [],
  ◌∷◌, nat_eq, ltb, ◌==◌, if◌then◌else◌, and_then, length,
}
use assistant_context_router.Text.{is_empty, is_alnum, all_chars, trim, starts_with}
use assistant_context_router.Value
use assistant_context_router.Value.{Value, Fields, Items, set_field}
use assistant_context_router.Host.{Host}
use assistant_context_router.Yaml.{scalar, indent_of, cleaned_lines, drop_first}

-- The text before the first colon and the text after it.
unfoldable pub split_colon : String → Option (String × String)
split_colon String.[] = none
split_colon (String.◌∷◌ c s) =
    let rest = split_colon s in
    if nat_eq (code c) b':'
    then some (String.[], s)
    else and_then rest (λ (k, v). some (String.◌∷◌ c k, v))

abbrev pub is_key_char : ℕ → Bool
is_key_char c = is_alnum c || nat_eq c b'_' || nat_eq c b'-'

-- What a line of a mapping holds: a key and a value, both trimmed, if a colon stands after the first
-- character.
unfoldable pub key_value : String → Option (String × String)
unfolding split_colon
key_value text = elim (split_colon text) [
  | none ↦ none
  | some (k, v) ↦ if is_empty k then none else some (trim k, trim v)
]

-- The key and the value of an element that is written like a mapping, `- key: value`.
unfoldable pub inline_key_value : String → Option (String × String)
unfolding split_colon
inline_key_value text = elim (split_colon text) [
  | none ↦ none
  | some (k, v) ↦
      if not (is_empty k) && all_chars is_key_char k then some (trim k, trim v) else none
]

-- `nextChildIndent`, of the lines from its start on.
unfoldable pub next_child_indent : List String → ℕ → Option ℕ
next_child_indent [] parent = none
next_child_indent (line ∷ lines) parent =
    if ltb parent (indent_of line) then some (indent_of line) else none

abbrev pub is_element : String → Bool
is_element trimmed = starts_with trimmed "- "

-- The value at a line: its text, or the block of deeper lines below it, or an empty text without one.
unfoldable pub parse_value :
    Host
    → (List String → ℕ → Option (Value × List String))
    → String
    → List String
    → ℕ
    → Option (Value × List String)
unfolding next_child_indent
parse_value host block text lines parent = elim (is_empty text) [
  | false ↦ some (scalar host text, lines)
  | true ↦ elim (next_child_indent lines parent) [
    | none ↦ some (Value.str "", lines)
    | some indent ↦ block lines indent
  ]
]

-- Whether a line belongs to a sequence, or to a mapping, at the indent.
abbrev pub in_sequence : String → ℕ → Bool
in_sequence line indent = nat_eq (indent_of line) indent && is_element (trim line)

abbrev pub in_mapping : String → ℕ → Bool
in_mapping line indent = nat_eq (indent_of line) indent && not (is_element (trim line))

-- The text of a line of a sequence after its dash.
abbrev pub element_text : String → String
element_text line = trim (drop_first (drop_first (trim line)))

abbrev starts_sequence : List String → Bool
starts_sequence [] = false
starts_sequence (line ∷ lines) = is_element (trim line)

unfoldable mutual
  unfolding key_value inline_key_value parse_value

  pub parse_block : Host → ℕ → List String → ℕ → Option (Value × List String)
  parse_block host zero lines indent = none
  parse_block host (suc n) lines indent = elim (starts_sequence lines) [
    | true ↦ and_then (parse_sequence host n lines indent) (λ (vs, rest). some (Value.arr vs, rest))
    | false ↦
        and_then (parse_mapping host n lines indent Value.end)
          (λ (fs, rest). some (Value.obj fs, rest))
  ]

  pub parse_sequence : Host → ℕ → List String → ℕ → Option (Items × List String)
  parse_sequence host zero lines indent = none
  parse_sequence host (suc n) [] indent = some (Value.nil, [])
  parse_sequence host (suc n) (line ∷ lines) indent = elim (in_sequence line indent) [
    | false ↦ some (Value.nil, line ∷ lines)
    | true ↦ elim (inline_key_value (element_text line)) [
      | none ↦
          and_then (parse_value host (parse_block host n) (element_text line) lines indent)
            (λ (v, l1).
              and_then (parse_sequence host n l1 indent) (λ (vs, l2). some (Value.cons v vs, l2)))
      | some (k, text) ↦
          and_then (parse_value host (parse_block host n) text lines indent) (λ (v, l1).
            and_then (parse_item host n l1 (indent + 2) (Value.field k v Value.end)) (λ (fs, l2).
              and_then (parse_sequence host n l2 indent)
                (λ (vs, l3). some (Value.cons (Value.obj fs) vs, l3))))
    ]
  ]

  -- The further keys of an element that is written like a mapping.
  pub parse_item : Host → ℕ → List String → ℕ → Fields → Option (Fields × List String)
  parse_item host zero lines indent fields = none
  parse_item host (suc n) [] indent fields = some (fields, [])
  parse_item host (suc n) (line ∷ lines) indent fields = elim (in_mapping line indent) [
    | false ↦ some (fields, line ∷ lines)
    | true ↦ elim (key_value (trim line)) [
      | none ↦ some (fields, line ∷ lines)
      | some (k, text) ↦
          and_then (parse_value host (parse_block host n) text lines indent)
            (λ (v, l1). parse_item host n l1 indent (set_field k v fields))
    ]
  ]

  pub parse_mapping : Host → ℕ → List String → ℕ → Fields → Option (Fields × List String)
  parse_mapping host zero lines indent fields = none
  parse_mapping host (suc n) [] indent fields = some (fields, [])
  parse_mapping host (suc n) (line ∷ lines) indent fields = elim (in_mapping line indent) [
    | false ↦ some (fields, line ∷ lines)
    | true ↦ elim (key_value (trim line)) [
      | none ↦ parse_mapping host n lines indent fields
      | some (k, text) ↦
          and_then (parse_value host (parse_block host n) text lines indent)
            (λ (v, l1). parse_mapping host n l1 indent (set_field k v fields))
    ]
  ]

-- The fuel that is enough for so many lines.
abbrev pub fuel_for : ℕ → ℕ
fuel_for lines = 2 * lines + 2

unfoldable pub parse_lines : Host → List String → Option Value
unfolding parse_block
parse_lines host [] = some (Value.obj Value.end)
parse_lines host (line ∷ lines) =
    and_then (parse_block host (fuel_for (length (line ∷ lines))) (line ∷ lines) (indent_of line))
      (λ (v, rest). some v)

unfoldable pub parse_simple_yaml : Host → String → Option Value
unfolding parse_lines
parse_simple_yaml host input = parse_lines host (cleaned_lines input)
