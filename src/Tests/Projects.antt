-- ===== src/Tests/Projects.antt =====
-- Distances of sample texts.
use assistant_context_router.Prelude.{ℕ, ◌≤◌, ◌≡◌, refl}
use assistant_context_router.Projects.{levenshtein_distance}
use assistant_context_router.Projects.Scripts.{Script, backwards, levenshtein_distance-shortest}

far : levenshtein_distance "kitten" "sitting" ≡ 3
unfolding levenshtein_distance
far = refl

levenshtein_distance-shortest_example :
    Script (backwards "kitten") (backwards "sitting") (levenshtein_distance "kitten" "sitting")
    × ((n : ℕ)
        → Script (backwards "kitten") (backwards "sitting") n
        → levenshtein_distance "kitten" "sitting" ≤ n)
levenshtein_distance-shortest_example = levenshtein_distance-shortest "kitten" "sitting"
