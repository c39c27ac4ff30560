-- ===== src/Yaml.antt =====
-- core/src/lib/simple-yaml.ts: the lines of a text, without comments, and the scalars in them.
pub mod Blocks
use Prim.Native.Char.{Char, code}
use Prim.Native.String
use Prim.Native.String.{[], ◌∷◌}
use mathlib.Core.List
use assistant_context_router.Prelude.{
  ℕ, suc, String, Bool, true, false, not, ◌&&◌, ◌||◌, ◌-◌, Option, none, some, List, filter, map,
  nat_eq, leb, ◌==◌, if◌then◌else◌, or_else, and_then,
}
use assistant_context_router.Text.{
  is_space, is_empty, is_alnum, all_chars, trim, trim_start, trim_end, text_length, starts_with,
  ◌⧺◌,
}
use assistant_context_router.Value
use assistant_context_router.Value.{Value}
use assistant_context_router.Host.{Host}

-- The loop of `stripComment`: the text before the first `#` that stands outside quotes, at the start or
-- after a space; `none` without one. The flags are those of the loop, `after_space` for what stands
-- before.
unfoldable pub before_comment : Bool → Bool → Bool → String → Option String
before_comment in_single in_double after_space [] = none
before_comment in_single in_double after_space (c ∷ s) =
    let single = nat_eq (code c) b'\'' && not in_double in
    let double = nat_eq (code c) b'"' && not in_single in
    let rest =
      before_comment (if single then not in_single else in_single)
        (if double && not single then not in_double else in_double) (is_space (code c)) s in
    if nat_eq (code c) b'#' && not in_single && not in_double && after_space
    then some []
    else and_then rest (λ t. some (c ∷ t))

unfoldable pub strip_comment : String → String
unfolding before_comment
strip_comment line =
    or_else (and_then (before_comment false false true line) (λ t. some (trim_end t))) line

-- `s.slice(0, -1)`
abbrev pub drop_last : String → String
drop_last [] = []
drop_last (c ∷ []) = []
drop_last (c ∷ d ∷ s) = c ∷ drop_last (d ∷ s)

-- `s.endsWith(c)` for one character.
abbrev pub ends_with : ℕ → String → Bool
ends_with c [] = false
ends_with c (d ∷ []) = nat_eq (code d) c
ends_with c (d ∷ e ∷ s) = ends_with c (e ∷ s)

-- `s.slice(1)`
abbrev pub drop_first : String → String
drop_first [] = []
drop_first (c ∷ s) = s

abbrev is_digit : ℕ → Bool
is_digit c = leb 48 c && leb c 57

abbrev is_digits : String → Bool
is_digits s = not (is_empty s) && all_chars is_digit s

-- `/^\d+(\.\d+)?$/`: the digits read so far are of the integer part; `any_digit` tells whether there is
-- one.
unfoldable pub is_unsigned : Bool → String → Bool
is_unsigned any_digit [] = any_digit
is_unsigned any_digit (c ∷ s) =
    let rest = is_unsigned true s in
    if nat_eq (code c) b'.' then any_digit && is_digits s else is_digit (code c) && rest

-- `/^-?\d+(\.\d+)?$/`
unfoldable pub is_number : String → Bool
unfolding is_unsigned
is_number [] = false
is_number (c ∷ s) = if nat_eq (code c) b'-' then is_unsigned false s else is_unsigned false (c ∷ s)

abbrev is_quoted_by : ℕ → String → Bool
is_quoted_by q [] = false
is_quoted_by q (c ∷ s) = nat_eq (code c) q && ends_with q (c ∷ s)

unfoldable pub scalar : Host → String → Value
unfolding is_number
scalar host value =
    let trimmed = trim value in
    if is_empty trimmed
    then Value.str ""
    else if is_quoted_by b'"' trimmed || is_quoted_by b'\'' trimmed
    then Value.str (drop_last (drop_first trimmed))
    else if trimmed == "true"
    then Value.bool true
    else if trimmed == "false"
    then Value.bool false
    else if trimmed == "null"
    then Value.null
    else if is_number trimmed
    then Value.num (host.number_of trimmed)
    else Value.str trimmed

unfoldable pub indent_of : String → ℕ
indent_of line = text_length line - text_length (trim_start line)

-- `s.replace(/^\uFEFF/, "")`
abbrev without_mark : String → String
without_mark [] = []
without_mark (c ∷ s) = if nat_eq (code c) 65279 then s else c ∷ s

-- A character in front of the first line.
abbrev push_front : Char → List String → List String
push_front c List.[] = List.◌∷◌ (c ∷ []) List.[]
push_front c (List.◌∷◌ line lines) = List.◌∷◌ (c ∷ line) lines

abbrev is_break : String → Bool
is_break [] = false
is_break (c ∷ s) = nat_eq (code c) 10

-- `s.split(/\r?\n/)`
unfoldable pub split_breaks : String → List String
split_breaks [] = List.◌∷◌ [] List.[]
split_breaks (c ∷ s) =
    let rest = split_breaks s in
    if nat_eq (code c) 10
    then List.◌∷◌ [] rest
    else if nat_eq (code c) 13 && is_break s
    then rest
    else push_front c rest

unfoldable pub cleaned_lines : String → List String
unfolding split_breaks strip_comment
cleaned_lines input =
    filter (λ line. not (is_empty (trim line)))
      (map strip_comment (split_breaks (without_mark input)))
