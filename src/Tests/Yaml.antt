-- ===== src/Tests/Yaml.antt =====
-- Sample texts, parsed.
use assistant_context_router.Prelude.{String, true, some, List, [], ◌∷◌, All, ◌≡◌, refl}
use assistant_context_router.Value
use assistant_context_router.Value.{Value}
use assistant_context_router.Text.{
  trim, trim_start, trim_end, is_space, text_length, starts_with, all_chars, is_alnum,
}
use assistant_context_router.Yaml.{
  cleaned_lines, strip_comment, scalar, indent_of, split_breaks, before_comment, is_number,
  is_unsigned,
}
use assistant_context_router.Yaml.Blocks.{
  parse_simple_yaml, parse_lines, parse_block, parse_sequence, parse_mapping, parse_item,
  parse_value, next_child_indent, key_value, inline_key_value, split_colon,
}
use assistant_context_router.Yaml.Blocks.Flat.{IsEntry, parse_lines-lines_of}
use assistant_context_router.Yaml.Blocks.Termination.{parse_simple_yaml-answers}
use assistant_context_router.Tests.Samples.{sample_host}

abbrev sample_text : String
sample_text = "projects: # all\n  - id: acr\n    on: true\n  - \"x\"\nn:\n"

parsed :
    parse_simple_yaml sample_host sample_text
    ≡ some (
        Value.obj (
          Value.field "projects"
            (Value.arr (
              Value.cons
                (Value.obj (
                  Value.field "id"
                    (Value.str "acr")
                    (Value.field "on" (Value.bool true) Value.end)))
                (Value.cons (Value.str "x") Value.nil)))
            (Value.field "n" (Value.str "") Value.end)))
unfolding parse_simple_yaml cleaned_lines trim trim_start trim_end is_space text_length all_chars
    starts_with strip_comment scalar parse_lines parse_block parse_sequence parse_mapping parse_item
    parse_value next_child_indent key_value inline_key_value split_colon indent_of split_breaks
    before_comment is_number is_unsigned Value.set_field is_alnum
parsed = refl

parse_simple_yaml-answers_example :
    (v : Value) × (parse_simple_yaml sample_host sample_text ≡ some v)
parse_simple_yaml-answers_example = parse_simple_yaml-answers sample_host sample_text

abbrev sample_entries : List (String × String)
sample_entries = ("status", "active") ∷ ("open-tasks", "3") ∷ []

sample_entries-IsEntry : All IsEntry sample_entries
unfolding all_chars is_alnum trim_start trim_end is_space
sample_entries-IsEntry =
    (((refl, refl), (refl, refl, refl)), (((refl, refl), (refl, refl, refl)), tt))

parse_lines-lines_of_example :
    parse_lines sample_host ("status: active" ∷ "open-tasks: 3" ∷ [])
    ≡ some (
        Value.obj (
          Value.set_field "open-tasks"
            (scalar sample_host "3")
            (Value.set_field "status" (scalar sample_host "active") Value.end)))
parse_lines-lines_of_example =
    parse_lines-lines_of sample_host sample_entries sample_entries-IsEntry
