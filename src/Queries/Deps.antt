-- ===== src/Queries/Deps.antt =====
-- `run` of crates/orbit-graph/src/query/deps.rs: the imports that the files of a scope declare.
pub mod Listed
use orbit_graph.Common.{
  ℕ, Bool, Option, some, none, List, [], ◌∷◌, ◌++◌, map, Result, ok, err, ◌==◌, nat_eq, list_eq,
  ◌>>=◌, filter,
}
use orbit_graph.Common.Sort.{sort_by, then_compare, compare_text, compare_option}
use orbit_graph.Common.Text.{Text, codes, trim_end_matches, starts_with}
use orbit_graph.Selector.{Selector, dir, file, symbol, module_named, command, to_string}
use orbit_graph.Index.{Index, ImportRow}

-- `GraphError::InvalidInput`, whose message is fixed
pub data DepsError : Type 0 where
  no_import_scope : DepsError

pub data ImportScope : Type 0 where
  file_eq : Text → ImportScope
  dir_prefix : Text → ImportScope

pub record DepEdge : Type 0 where
  pub from_file : Text
  pub target_path : Text
  pub target_symbol : Option Text

pub record DepsResult : Type 0 where
  pub scope : Text
  pub imports : List DepEdge

abbrev pub slash : ℕ
slash = 47

-- `ImportScope::from_selector`
unfoldable pub scope_from_selector : Selector → Result DepsError ImportScope
unfolding trim_end_matches
scope_from_selector (file p) = ok (file_eq p)
scope_from_selector (dir p) = ok (dir_prefix (trim_end_matches (λ c. c == slash) p ++ slash ∷ []))
scope_from_selector (symbol p s k) = err no_import_scope
scope_from_selector (module_named q) = err no_import_scope
scope_from_selector (command n) = err no_import_scope

-- the predicate of the query: `substr(from_file, 1, length(?1)) = ?1` for a directory
unfoldable pub in_scope : ImportScope → ImportRow → Bool
unfolding starts_with
in_scope (file_eq p) row = row.from_file == p
in_scope (dir_prefix prefix) row = starts_with prefix row.from_file

abbrev pub dep_edge : ImportRow → DepEdge
dep_edge row = record {
  from_file = row.from_file;
  target_path = row.target_path;
  target_symbol = row.target_symbol;
}

-- ORDER BY from_file, target_path, target_symbol
unfoldable pub query_imports : Index → ImportScope → List DepEdge
unfolding in_scope sort_by
query_imports index scope = map dep_edge (
    sort_by
      (λ (a : ImportRow) (b : ImportRow). then_compare (compare_text a.from_file b.from_file) (
        then_compare (compare_text a.target_path b.target_path)
          (compare_option compare_text a.target_symbol b.target_symbol)))
      (filter (in_scope scope) index.imports))

unfoldable pub deps : Index → Selector → Result DepsError DepsResult
unfolding scope_from_selector query_imports to_string
deps index sel = do
  scope ← scope_from_selector sel
  ok (record { scope = to_string sel; imports = query_imports index scope })
