-- ===== src/Projects/Search/Bounds.antt =====
-- How many projects a search finds.
use assistant_context_router.Prelude.{
  ℕ, suc, ◌≤◌, String, List, map, length, filter, take, leb, ◌≡◌, refl, ap, arith, length-filter-le,
  length-take-le,
}
use assistant_context_router.Host.{Host}
use assistant_context_router.Projects.{ProjectRegistryEntry}
use assistant_context_router.Projects.Search.{
  SearchPaths, ScoredProject, find_closest_projects, scored, threshold, points_of,
}

length-entries : (cs : List ScoredProject) → length (map (λ c. c.entry) cs) ≡ length cs
length-entries List.[] = refl
length-entries (List.◌∷◌ c cs) = ap suc (length-entries cs)

-- A search finds no more projects than its limit.
pub length-find_closest_projects :
    (host : Host) (path : SearchPaths) (entries : List ProjectRegistryEntry) (query : String)
    (limit : ℕ)
    → length (find_closest_projects host path entries query limit) ≤ limit
unfolding find_closest_projects
length-find_closest_projects host path entries query limit =
    let found = scored host path entries query in
    let close = λ (c : ScoredProject). leb (threshold found) (points_of c) in
    omega (
      arith,
      length-entries (filter close (take limit found)),
      length-filter-le close (take limit found),
      length-take-le limit found,
    )
