-- ===== src/Projects/Search.antt =====
-- core/src/projects/registry.ts: how well a project answers a query, and the closest projects.
pub mod Bounds
use Prim.Native.Char.{Char, code}
use Prim.Native.String
use Prim.Native.String.{[], ◌∷◌}
use mathlib.Core.List
use assistant_context_router.Prelude.{
  ℕ, ◌+◌, ◌-◌, ◌*◌, String, Bool, true, false, not, ◌&&◌, ◌||◌, Option, none, some, List, ◌==◌,
  nat_eq, ltb, leb, if◌then◌else◌, or_else, and_then, filter, map, take, length,
}
use assistant_context_router.Text.{is_empty, is_space, trim, includes, join, space_runs}
use assistant_context_router.Host.{Host, not_after}
use assistant_context_router.Sorting.{sort}
use assistant_context_router.Projects.{
  ProjectRegistryEntry, least, levenshtein_distance, normalize_project_token,
}

-- `path.basename(path)` and `path.dirname(path)`
pub record SearchPaths : Type 0 where
  pub basename : String → String
  pub dirname : String → String

abbrev is_search_char : ℕ → Bool
is_search_char c = (leb 97 c && leb c 122) || (leb 48 c && leb c 57)

unfoldable pub normalize_search_text : Host → String → String
normalize_search_text host value = trim (
    space_runs is_space false
      (space_runs (λ c. not (is_search_char c)) false (host.to_lower (trim value))))

abbrev push_letter : Char → List String → List String
push_letter c List.[] = List.◌∷◌ (c ∷ []) List.[]
push_letter c (List.◌∷◌ word words) = List.◌∷◌ (c ∷ word) words

-- `text.split(" ")`
unfoldable pub split_words : String → List String
split_words [] = List.◌∷◌ [] List.[]
split_words (c ∷ s) =
    let rest = split_words s in
    if nat_eq (code c) b' ' then List.◌∷◌ [] rest else push_letter c rest

unfoldable pub tokenize_search_text : Host → String → List String
unfolding normalize_search_text split_words
tokenize_search_text host value =
    filter (λ t. not (is_empty t)) (map trim (split_words (normalize_search_text host value)))

-- `text.replace(/[…]+/g, "")`
unfoldable pub without : (ℕ → Bool) → String → String
without dropped [] = []
without dropped (c ∷ s) =
    let rest = without dropped s in if dropped (code c) then rest else c ∷ rest

unfoldable pub build_search_haystack : Host → SearchPaths → ProjectRegistryEntry → String
unfolding normalize_search_text
build_search_haystack host path entry = normalize_search_text host (
    join " " (
      List.◌∷◌ entry.project_id (
        List.◌∷◌ (or_else entry.title "") (
          List.◌∷◌ entry.file (
            List.◌∷◌ (path.basename entry.project_root)
              (List.◌∷◌ (path.basename (path.dirname entry.project_root)) List.[]))))))

-- `if (test) score += points`
abbrev bonus : Bool → ℕ → ℕ
bonus test points = if test then points else 0

-- `tokens.length > 0 && tokens.every((token) => text.includes(token))`
abbrev all_in : List String → String → Bool
all_in List.[] text = true
all_in (List.◌∷◌ t tokens) text = includes text t && all_in tokens text

abbrev is_nonempty : List String → Bool
is_nonempty List.[] = false
is_nonempty (List.◌∷◌ t tokens) = true

unfoldable pub token_points : List String → String → String → String → ℕ
token_points List.[] haystack id title = 0
token_points (List.◌∷◌ t tokens) haystack id title =
    bonus (includes haystack t) 18
    + bonus (includes id t) 14
    + bonus (includes title t) 12
    + token_points tokens haystack id title

-- What is taken off is at most this.
abbrev pub most_off : ℕ
most_off = 90

-- The score and 90, which is never below 0; `none` is minus infinity.
unfoldable pub score_project_match : Host → SearchPaths → ProjectRegistryEntry → String → Option ℕ
unfolding normalize_search_text tokenize_search_text build_search_haystack token_points without
score_project_match host path entry query =
    let text = normalize_search_text host query in
    let tokens = tokenize_search_text host query in
    let asked = normalize_project_token host query in
    let id = normalize_project_token host entry.project_id in
    let title = normalize_search_text host (or_else entry.title "") in
    let haystack = build_search_haystack host path entry in
    let compact = without is_space text in
    let compact_title = without is_space title in
    let points =
      bonus (id == asked) 10000
      + bonus (includes haystack text) 300
      + bonus (not (is_empty title) && includes title text) 220
      + bonus (includes id asked) 180
      + bonus (is_nonempty tokens && all_in tokens haystack) (140 + length tokens * 12)
      + bonus (is_nonempty tokens && all_in tokens id) (110 + length tokens * 10)
      + token_points tokens haystack id title in
    let off =
      least (levenshtein_distance compact (without (λ c. not (is_search_char c)) id)) 50
      + bonus (not (is_empty compact_title))
          (least (levenshtein_distance compact compact_title) 40) in
    if is_empty text then none else some ((points + most_off) - off)

pub record ScoredProject : Type 0 where
  pub entry : ProjectRegistryEntry
  pub score : Option ℕ

-- `-Infinity` is below every score.
abbrev pub points_of : ScoredProject → ℕ
points_of c = or_else (and_then c.score (λ s. some (s + 1))) 0

-- The comparison of the sort: the higher score first, then the id in the order of the host.
unfoldable pub comes_before : Host → ScoredProject → ScoredProject → Bool
comes_before host c d =
    ltb (points_of d) (points_of c)
    || (nat_eq (points_of c) (points_of d) && not_after host c.entry.project_id d.entry.project_id)

unfoldable pub scored : Host → SearchPaths → List ProjectRegistryEntry → String → List ScoredProject
unfolding score_project_match comes_before
scored host path entries query = sort (comes_before host) (
    map (λ entry. record { entry = entry; score = score_project_match host path entry query })
      entries)

abbrev larger : ℕ → ℕ → ℕ
larger a b = if ltb a b then b else a

-- `threshold`, with 90 and 1 more as the points have it.
abbrev pub threshold : List ScoredProject → ℕ
threshold List.[] = 0
threshold (List.◌∷◌ best rest) = larger 101 (points_of best - 120)

unfoldable pub find_closest_projects :
    Host → SearchPaths → List ProjectRegistryEntry → String → ℕ → List ProjectRegistryEntry
unfolding scored
find_closest_projects host path entries query limit =
    let found = scored host path entries query in
    map (λ c. c.entry) (filter (λ c. leb (threshold found) (points_of c)) (take limit found))
