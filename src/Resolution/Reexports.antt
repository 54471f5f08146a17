-- ===== src/Resolution/Reexports.antt =====
-- `resolve_reexport` of crates/orbit-graph/src/sync/pass2.rs. The walk visits a path once and gives
-- up beyond 64 paths, so it recurs on the visits that are left and needs no fuel.
pub mod Sound
use mathlib.Core.List.{reverse}
use mathlib.Core.Option
use orbit_graph.Common.{
  ℕ, zero, suc, Bool, true, false, not, ◌&&◌, ◌||◌, List, [], ◌∷◌, ◌++◌, Option, none, some, ◌==◌,
  nat_eq, list_eq, option_eq, filter, any, is_empty, contains, collect, if◌then◌else◌,
}
use orbit_graph.Common.Text.{
  Text, codes, is_some, strip_prefix, starts_with, split_double, contains_text,
}
use orbit_graph.Index.{Index}
use orbit_graph.Resolution.Raw.{
  RawRef, SymbolCandidate, ReexportCandidate, ImportResolution, unique, ambiguous, no_match,
}
use orbit_graph.Resolution.Names.{
  resolve_import_path, resolve_reexport_path, join_module_symbol, file_module_parts,
}
use orbit_graph.Common.Text.{join}
use orbit_graph.Resolution.Members.{last_segment, first_segment}
use orbit_graph.Resolution.Candidates.{reexport_rows}
use orbit_graph.Resolution.Rungs.{insert_match, resolution_of, unique_qualified_match}

-- the module that a re-export row is exposed in
pub exposing_module : ReexportCandidate → Text
unfolding file_module_parts join join_module_symbol
exposing_module row =
    let file_module = join (codes "::") (file_module_parts row.from_file) in
    if is_empty row.reexport_module
    then file_module
    else join_module_symbol file_module row.reexport_module

-- `path.match_indices("::").map(|(at, _)| &path[..at])`
pub heads_of : Text → List Text → List Text
heads_of before [] = []
heads_of before (part ∷ []) = []
heads_of before (part ∷ next ∷ parts) =
    (before ++ part) ∷ heads_of (before ++ (part ++ codes "::")) (next ∷ parts)

-- `str::trim_start_matches("::")`
pub trim_double_colons : Text → Text
trim_double_colons [] = []
trim_double_colons (c ∷ []) = c ∷ []
trim_double_colons (c ∷ d ∷ s) =
    let trimmed = trim_double_colons s in if c == b':' && d == b':' then trimmed else c ∷ d ∷ s

-- the name that a path has directly in a module
pub exposed_name : Text → Text → Text
unfolding strip_prefix trim_double_colons first_segment
exposed_name inside path = elim (strip_prefix inside path) [
  | none ↦ []
  | some rest ↦ first_segment (trim_double_colons rest)
]

abbrev follow : Text → Option Text → Option Text
follow source none = none
follow source (some rest) = some (source ++ rest)

abbrev kept_if : (Text → Bool) → Option Text → Option Text
kept_if p none = none
kept_if p (some rest) = if p rest then some rest else none

-- the path of an aliased name in the module that it comes from
pub source_path : Text → Text → Option Text → Text
unfolding join_module_symbol
source_path target alias source_symbol =
    let source : Text = elim source_symbol [ none ↦ alias | some name ↦ name ] in
    if is_empty source then target else join_module_symbol target source

-- what a path becomes by one row
pub mapped : Text → Text → ReexportCandidate → Option Text
unfolding resolve_reexport_path join_module_symbol strip_prefix starts_with source_path
mapped inside path row =
    let target = resolve_reexport_path row.from_file row.reexport_module row.target_path in
    elim row.target_symbol [
      | some alias ↦ follow (source_path target alias row.source_symbol) (
          kept_if (λ rest. is_empty rest || starts_with (codes "::") rest)
            (strip_prefix (join_module_symbol inside alias) path))
      | none ↦ follow target (kept_if (starts_with (codes "::")) (strip_prefix inside path))
    ]

-- the paths that the rows of one module lead to; a name that a row names is not taken from a glob
pub mapped_in : List ReexportCandidate → Text → Text → List Text
unfolding exposing_module exposed_name mapped
mapped_in rows path inside =
    let here = filter (λ row. exposing_module row == inside) rows in
    let has_explicit = any (λ row. row.target_symbol == some (exposed_name inside path)) here in
    collect
      (λ row.
        if has_explicit && not (is_some row.target_symbol) then none else mapped inside path row)
      here

pub all_mapped : List ReexportCandidate → Text → List Text → List Text
unfolding mapped_in
all_mapped rows path [] = []
all_mapped rows path (inside ∷ modules) = mapped_in rows path inside ++ all_mapped rows path modules

-- the paths that are pushed while a path is visited, in order
pub pushed : List ReexportCandidate → Text → List Text
unfolding all_mapped heads_of split_double
pushed rows path = all_mapped rows path ([] ∷ heads_of [] (split_double b':' path))

-- pops to the first path that was not visited
pub next_unvisited : List Text → List Text → Option (Text × List Text)
next_unvisited visited [] = none
next_unvisited visited (path ∷ pending) =
    let later = next_unvisited visited pending in
    if contains visited path then later else some (path, pending)

module _ (is_alphanumeric : ℕ → Bool) (index : Index) where
  -- the candidate that a path other than the first one names
  pub add_match : Text → Text → List SymbolCandidate → List SymbolCandidate
  unfolding unique_qualified_match last_segment insert_match
  add_match initial path matches =
      if path == initial
      then matches
      else elim (unique_qualified_match is_alphanumeric index (codes "rust") (last_segment path)
          path) [ none ↦ matches | some c ↦ insert_match c matches ]

  -- the loop, with the number of paths that it may still visit
  pub walk :
      Text
      → List ReexportCandidate
      → ℕ
      → List Text
      → List SymbolCandidate
      → List Text
      → ImportResolution
  unfolding next_unvisited add_match pushed
  walk initial rows zero visited matches pending = elim (next_unvisited visited pending) [
    | none ↦ resolution_of matches
    | some _ ↦ ambiguous
  ]
  walk initial rows (suc room) visited matches pending = elim (next_unvisited visited pending) [
    | none ↦ resolution_of matches
    | some (path, rest) ↦
        walk initial rows room (path ∷ visited) (add_match initial path matches)
          (reverse (pushed rows path) ++ rest)
  ]

  pub reexported : Text → ImportResolution
  unfolding contains_text walk reexport_rows
  reexported initial =
      let walked = walk initial (reexport_rows index) 64 [] [] (initial ∷ []) in
      if contains_text (codes "::") initial then walked else no_match

  unfoldable pub resolve_reexport : Text → RawRef → ImportResolution
  unfolding resolve_import_path reexported
  resolve_reexport from_file raw_ref = elim raw_ref.target_qualified [
    | none ↦ no_match
    | some spelled ↦ reexported (resolve_import_path from_file spelled)
  ]
