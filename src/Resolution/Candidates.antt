-- ===== src/Resolution/Candidates.antt =====
-- The candidates of a name and the module prefixes of a file: the queries of
-- crates/orbit-graph/src/sync/pass2.rs and the tests on prefixes. The caches of `Resolver` hold
-- values of these functions, which read rows that the pass does not change.
pub mod Defined
use Prim.Native.Nat.{compare, Ordering}
use mathlib.Core.Option
use orbit_graph.Common.{
  ℕ, Bool, true, false, not, ◌&&◌, ◌||◌, List, [], ◌∷◌, ◌++◌, Option, none, some, ◌==◌, nat_eq,
  list_eq, option_eq, filter, find, any, collect, if◌then◌else◌, map, contains, is_empty,
}
use orbit_graph.Common.Sort.{sort_by, then_compare, compare_text, compare_option}
use orbit_graph.Common.Text.{Text, codes, is_some}
use orbit_graph.Index.{Index, FileRow, SymbolRow, ImportRow}
use orbit_graph.Resolution.Raw.{SymbolCandidate, NamedCandidate, ImportCandidate, ReexportCandidate}
use orbit_graph.Resolution.Names.{
  normalize_module_path, qualified_prefix_before_name, file_module_parts, starts_of,
  is_module_symbol, is_module_suffix, join_module_symbol,
}
use orbit_graph.Resolution.Members.{prefix_within_module}

unfoldable pub symbol_candidate_from_row : SymbolRow → SymbolCandidate
symbol_candidate_from_row s = record {
  id = s.id;
  file_path = s.file_path;
  name = s.name;
  qualified = s.qualified;
}

-- ORDER BY qualified, id
unfoldable pub by_qualified : List SymbolRow → List SymbolRow
unfolding sort_by
by_qualified =
    sort_by (λ a b. then_compare (compare_text a.qualified b.qualified) (compare a.id b.id))

unfoldable pub symbols_in_file_by_name : Index → Text → Text → List SymbolCandidate
unfolding by_qualified symbol_candidate_from_row
symbols_in_file_by_name index from_file name = map symbol_candidate_from_row (
    by_qualified (
      filter (λ s. s.file_path == from_file && s.name == name && not (s.kind == codes "impl"))
        index.symbols))

-- `path` is the primary key of files: at most one row has it
unfoldable pub file_language : Index → Text → Option Text
file_language index path = Option.map (λ f. f.lang) (find (λ f. f.path == path) index.files)

-- ORDER BY target_symbol IS NULL, target_path, target_symbol
unfoldable pub imports_for_file : Index → Text → List ImportCandidate
unfolding sort_by
imports_for_file index from_file =
    map (λ i. record { target_path = i.target_path; target_symbol = i.target_symbol })
      (sort_by
        (λ a b. then_compare (compare_option (λ _ _. Ordering.eq) b.target_symbol a.target_symbol) (
          then_compare (compare_text a.target_path b.target_path)
            (compare_option compare_text a.target_symbol b.target_symbol)))
        (filter (λ i. i.from_file == from_file) index.imports))

-- the rows of `reexports`
unfoldable pub reexport_rows : Index → List ReexportCandidate
unfolding file_language
reexport_rows index =
    collect
      (λ i. elim i.reexport_module [
        | none ↦ none
        | some inside ↦
            if file_language index i.from_file == some (codes "rust")
            then some (record {
              from_file = i.from_file;
              target_path = i.target_path;
              target_symbol = i.target_symbol;
              source_symbol = i.source_symbol;
              reexport_module = inside;
            })
            else none
      ])
      index.imports

module _ (is_alphanumeric : ℕ → Bool) where
  -- `NamedCandidate::new`
  unfoldable pub named : SymbolCandidate → Text → NamedCandidate
  unfolding normalize_module_path qualified_prefix_before_name
  named s language = record {
    symbol = s;
    language = language;
    normalized_qualified = normalize_module_path s.qualified;
    own_prefix =
        Option.map normalize_module_path
          (qualified_prefix_before_name is_alphanumeric s.qualified s.name);
  }

  pub named_in : Index → SymbolRow → Option NamedCandidate
  unfolding named file_language symbol_candidate_from_row
  named_in index s =
      Option.map (λ language. named (symbol_candidate_from_row s) language)
        (file_language index s.file_path)

  unfoldable pub symbols_by_name : Index → Text → List NamedCandidate
  unfolding by_qualified named_in
  symbols_by_name index name =
      collect (named_in index)
        (by_qualified (filter (λ s. s.name == name && not (s.kind == codes "impl")) index.symbols))

  -- a set: only `contains` and emptiness are asked of it
  unfoldable pub module_prefixes : Text → List (Text × Text) → List Text
  unfolding qualified_prefix_before_name normalize_module_path file_module_parts
  module_prefixes file_path symbols =
      map normalize_module_path
        (collect (λ s. qualified_prefix_before_name is_alphanumeric s.0 s.1) symbols)
      ++ starts_of (file_module_parts file_path)

  unfoldable pub module_prefixes_for_file : Index → Text → List Text
  unfolding module_prefixes
  module_prefixes_for_file index from_file = module_prefixes from_file (
      map {A = SymbolRow} {B = Text × Text} (λ s. (s.qualified, s.name))
        (filter (λ s. s.file_path == from_file) index.symbols))

  -- whether a prefix of the candidate passes: the one of its own name, or one of its file
  pub any_prefix : Index → (Text → Bool) → NamedCandidate → Bool
  unfolding module_prefixes_for_file
  any_prefix index matches candidate =
      (elim candidate.own_prefix [ none ↦ false | some prefix ↦ matches prefix ])
      || any matches (module_prefixes_for_file index candidate.symbol.file_path)

  unfoldable pub candidate_matches_qualified : Index → NamedCandidate → Text → Bool
  unfolding any_prefix is_module_symbol
  candidate_matches_qualified index candidate target =
      candidate.normalized_qualified == target
      || any_prefix index (λ prefix. is_module_symbol target prefix candidate.normalized_qualified)
          candidate

  unfoldable pub candidate_matches_module : Index → NamedCandidate → Text → Bool
  unfolding any_prefix is_module_suffix
  candidate_matches_module index candidate inside =
      any_prefix index (λ prefix. prefix == inside || is_module_suffix prefix inside) candidate

  unfoldable pub candidate_shares_module : Index → NamedCandidate → List Text → Bool
  unfolding any_prefix
  candidate_shares_module index candidate prefixes =
      any_prefix index (λ prefix. contains prefixes prefix) candidate

  unfoldable pub candidate_within_module : Index → NamedCandidate → Text → Bool
  unfolding any_prefix prefix_within_module
  candidate_within_module index candidate qualifier =
      any_prefix index (λ prefix. prefix_within_module prefix qualifier) candidate
