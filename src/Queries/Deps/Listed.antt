-- ===== src/Queries/Deps/Listed.antt =====
-- The imports that crates/orbit-graph/src/query/deps.rs lists.
use mathlib.Core.List.{Memᴰ}
use orbit_graph.Common.{
  true, [], ◌∷◌, ◌++◌, ok, ◌≡◌, ◌↔◌, sym, ◌∙◌, subst, ◌==◌, nat_eq, list_eq, append_assoc, filter,
  All-filter_passes,
}
use orbit_graph.Common.Members.{
  mem-filter, mem-sort_by, sort_by-mem, filter-mem, mem-map, map-mem, All-mem,
}
use orbit_graph.Common.Text.{Text, trim_end_matches, starts_with}
use orbit_graph.Common.Text.Affix.{starts_with-append, starts_with-eq-true}
use orbit_graph.Selector.{dir}
use orbit_graph.Index.{Index, ImportRow}
use orbit_graph.Queries.Deps.{
  ImportScope, dir_prefix, DepEdge, DepsResult, slash, in_scope, dep_edge, query_imports, deps,
}

-- an import of a file below the directory, at whatever depth
pub record IsDeclaredUnder (index : Index) (p : Text) (edge : DepEdge) : Type 0 where
  pub row : ImportRow
  pub stored : Memᴰ row index.imports
  pub read : edge ≡ dep_edge row
  pub rest : Text
  pub below : row.from_file ≡ trim_end_matches (λ c. c == slash) p ++ slash ∷ rest

query_imports-mem :
    (index : Index) (scope : ImportScope) (edge : DepEdge)
    → Memᴰ edge (query_imports index scope)
    → (row : ImportRow) × Memᴰ row index.imports
      × (edge ≡ dep_edge row)
      × (in_scope scope row ≡ true)
unfolding query_imports
query_imports-mem index scope edge m =
    let (row, among, read) = mem-map dep_edge _ edge m in
    let kept = mem-sort_by _ (filter (in_scope scope) index.imports) row among in
    (
      row,
      mem-filter (in_scope scope) index.imports row kept,
      read,
      All-mem (λ r. in_scope scope r ≡ true) (filter (in_scope scope) index.imports) row
          (All-filter_passes (in_scope scope) index.imports) kept,
    )

mem-query_imports :
    (index : Index) (scope : ImportScope) (row : ImportRow)
    → Memᴰ row index.imports
    → in_scope scope row ≡ true
    → Memᴰ (dep_edge row) (query_imports index scope)
unfolding query_imports
mem-query_imports index scope row m h = map-mem dep_edge _ row (
    sort_by-mem _ (filter (in_scope scope) index.imports) row
      (filter-mem (in_scope scope) index.imports row h m))

abbrev under : Text → Text
under p = trim_end_matches (λ c. c == slash) p ++ slash ∷ []

in_scope-dir :
    (p : Text) (row : ImportRow)
    → in_scope (dir_prefix (under p)) row ≡ true
    → (rest : Text) × (row.from_file ≡ trim_end_matches (λ c. c == slash) p ++ slash ∷ rest)
unfolding in_scope
in_scope-dir p row h =
    let (rest, e) = starts_with-eq-true (under p) row.from_file h in
    (rest, e ∙ append_assoc (trim_end_matches (λ c. c == slash) p) (slash ∷ []) rest)

dir-in_scope :
    (p rest : Text) (row : ImportRow)
    → row.from_file ≡ trim_end_matches (λ c. c == slash) p ++ slash ∷ rest
    → in_scope (dir_prefix (under p)) row ≡ true
unfolding in_scope
dir-in_scope p rest row e =
    subst (λ t. starts_with (under p) t ≡ true)
      (sym (e ∙ sym (append_assoc (trim_end_matches (λ c. c == slash) p) (slash ∷ []) rest)))
      (starts_with-append (under p) rest)

-- Where `deps` returns for a directory, it lists an edge exactly when that is the edge of a
-- stored import whose file stands below the directory, at whatever depth: the directory without
-- its slashes at the end, a slash and the rest.
pub deps-dir :
    (index : Index) (p : Text) (r : DepsResult) (edge : DepEdge)
    → deps index (dir p) ≡ ok r
    → Memᴰ edge r.imports ↔ IsDeclaredUnder index p edge
unfolding deps
deps-dir index p r edge h =
    let listed : query_imports index (dir_prefix (under p)) ≡ r.imports = cc in
    (
      λ m.
          let (row, stored, read, scoped) =
            query_imports-mem index (dir_prefix (under p)) edge
              (subst (Memᴰ edge) (sym listed) m) in
          let (rest, below) = in_scope-dir p row scoped in
          record { row = row; stored = stored; read = read; rest = rest; below = below },
      λ d. subst (Memᴰ edge) listed (
          subst (λ e. Memᴰ e (query_imports index (dir_prefix (under p)))) (sym d.read)
            (mem-query_imports index (dir_prefix (under p)) d.row d.stored
              (dir-in_scope p d.rest d.row d.below))),
    )
