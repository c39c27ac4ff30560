-- ===== src/Text.antt =====
-- JavaScript's string operations, as the sources use them: `trim`, `includes`, `join`, truthiness,
-- and `replace(/[^…]+/g, "_")`. A text is a sequence of code points; texts with lone surrogates are
-- left out.
pub mod Laws
pub mod Clean
use Prim.Native.Char.{Char, code}
use Prim.Native.String
use Prim.Native.String.{[], ◌∷◌}
use mathlib.Core.List
use assistant_context_router.Prelude.{
  ℕ, zero, suc, String, Bool, true, false, not, ◌&&◌, ◌||◌, Option, none, some, List, ltb, leb,
  nat_eq, ◌==◌, if◌then◌else◌,
}

-- ECMAScript's WhiteSpace and LineTerminator.
unfoldable pub is_space : ℕ → Bool
is_space c =
    (leb 9 c && leb c 13)
    || nat_eq c 32
    || nat_eq c 160
    || nat_eq c 5760
    || (leb 8192 c && leb c 8202)
    || nat_eq c 8232
    || nat_eq c 8233
    || nat_eq c 8239
    || nat_eq c 8287
    || nat_eq c 12288
    || nat_eq c 65279

abbrev pub is_empty : String → Bool
is_empty [] = true
is_empty (c ∷ s) = false

-- `text && …`, `!!text` for a text that may be null.
abbrev pub truthy : Option String → Bool
truthy none = false
truthy (some s) = not (is_empty s)

unfoldable pub trim_start : String → String
unfolding is_space
trim_start [] = []
trim_start (c ∷ s) = let rest = trim_start s in if is_space (code c) then rest else c ∷ s

unfoldable pub trim_end : String → String
unfolding is_space
trim_end [] = []
trim_end (c ∷ s) =
    let rest = trim_end s in if is_empty rest && is_space (code c) then [] else c ∷ rest

unfoldable pub trim : String → String
unfolding trim_start trim_end
trim s = trim_end (trim_start s)

-- `s.startsWith(key)`
unfoldable pub starts_with : String → String → Bool
starts_with s [] = true
starts_with [] (k ∷ key) = false
starts_with (c ∷ s) (k ∷ key) = nat_eq (code c) (code k) && starts_with s key

-- `s.includes(key)`
unfoldable pub includes : String → String → Bool
unfolding starts_with
includes [] key = is_empty key
includes (c ∷ s) key = starts_with (c ∷ s) key || includes s key

infixr 65 ◌⧺◌
abbrev pub ◌⧺◌ : String → String → String
s ⧺ t = String.◌++◌ s t

-- `parts.join(sep)`
unfoldable pub join : String → List String → String
join sep List.[] = []
join sep (List.◌∷◌ s List.[]) = s
join sep (List.◌∷◌ s (List.◌∷◌ t rest)) = s ⧺ sep ⧺ join sep (List.◌∷◌ t rest)

-- Every code point passes the test.
unfoldable pub all_chars : (ℕ → Bool) → String → Bool
all_chars p [] = true
all_chars p (c ∷ s) = p (code c) && all_chars p s

-- The loop of `s.replace(/[^…]+/g, "_")`: a maximal run of code points outside the class becomes one
-- underscore.
unfoldable pub replace_runs : (ℕ → Bool) → Bool → String → String
replace_runs allowed in_run [] = []
replace_runs allowed in_run (c ∷ s) =
    let rest = replace_runs allowed (not (allowed (code c))) s in
    if allowed (code c) then c ∷ rest else if in_run then rest else "_" ∷ rest

unfoldable pub is_alnum : ℕ → Bool
is_alnum c = (leb 97 c && leb c 122) || (leb 65 c && leb c 90) || (leb 48 c && leb c 57)

-- `s.length`, in code points: the code counts UTF-16 units, which are more beyond the basic plane only.
unfoldable pub text_length : String → ℕ
text_length [] = 0
text_length (c ∷ s) = suc (text_length s)

-- `s.slice(0, n)`, in code points.
unfoldable pub slice_to : ℕ → String → String
slice_to zero s = []
slice_to (suc n) [] = []
slice_to (suc n) (c ∷ s) = c ∷ slice_to n s

-- The loop of `s.replace(/[…]+/g, " ")`: a maximal run of code points of the class becomes one space.
unfoldable pub space_runs : (ℕ → Bool) → Bool → String → String
space_runs matched in_run [] = []
space_runs matched in_run (c ∷ s) =
    let rest = space_runs matched (matched (code c)) s in
    if not (matched (code c)) then c ∷ rest else if in_run then rest else " " ⧺ rest
