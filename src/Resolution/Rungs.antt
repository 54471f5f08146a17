-- ===== src/Resolution/Rungs.antt =====
-- The rungs of the ladder in crates/orbit-graph/src/sync/pass2.rs that do not follow re-exports:
-- the file itself, its imports, qualified names and the module.
pub mod Sound
pub mod Receivers
use mathlib.Core.Option
use orbit_graph.Common.{
  ℕ, Bool, true, false, not, ◌&&◌, ◌||◌, List, [], ◌∷◌, ◌++◌, Option, none, some, ◌==◌, nat_eq,
  list_eq, option_eq, ltb, filter, find, any, map, is_empty, last, if◌then◌else◌,
}
use mathlib.Core.List.{reverse}
use orbit_graph.Common.Text.{
  Text, codes, is_some, ends_with, strip_suffix, contains_text, rsplit_once_text,
}
use orbit_graph.Index.{Index}
use orbit_graph.Resolution.Raw.{
  RawRef, SymbolCandidate, NamedCandidate, ImportCandidate, ImportResolution, unique, ambiguous,
  no_match,
}
use orbit_graph.Resolution.Names.{normalize_module_path, resolve_import_path, join_module_symbol}
use orbit_graph.Resolution.Members.{
  last_segment, names_free_item, call_module_qualifier, is_member_symbol,
}
use orbit_graph.Resolution.Candidates.{
  symbols_in_file_by_name, symbols_by_name, module_prefixes_for_file, candidate_matches_qualified,
  candidate_matches_module, candidate_shares_module, candidate_within_module,
}

unfoldable pub resolves_by_name_only : RawRef → Bool
resolves_by_name_only raw_ref = not (is_some raw_ref.unresolved_receiver)

abbrev pub unique_candidate {ℓ} : {A : Type ℓ} → List A → Option A
unique_candidate [] = none
unique_candidate (only ∷ []) = some only
unique_candidate (_ ∷ _ ∷ _) = none

-- the loop that keeps the one candidate that passes, and gives up at a second one
pub only_where :
    (NamedCandidate → Bool) → Option SymbolCandidate → List NamedCandidate → Option SymbolCandidate
only_where passes matched [] = matched
only_where passes matched (c ∷ cs) =
    let skipped = only_where passes matched cs in
    let first_match = only_where passes (some c.symbol) cs in
    if passes c then (if is_some matched then none else first_match) else skipped

-- a map from ids to candidates, in the order of the ids
unfoldable pub insert_match : SymbolCandidate → List SymbolCandidate → List SymbolCandidate
insert_match s [] = s ∷ []
insert_match s (t ∷ ts) =
    let later = insert_match s ts in
    if ltb s.id t.id then s ∷ t ∷ ts else if s.id == t.id then s ∷ ts else t ∷ later

-- none, one or several matches
abbrev pub resolution_of : List SymbolCandidate → ImportResolution
resolution_of [] = no_match
resolution_of (only ∷ []) = unique only
resolution_of (_ ∷ _ ∷ _) = ambiguous

-- the second round of imports, where the first found nothing
abbrev pub or_else : ImportResolution → ImportResolution → ImportResolution
or_else (unique c) later = unique c
or_else ambiguous later = ambiguous
or_else no_match later = later

-- the last part of an import path, at colons and dots, that is not empty
pub last_part : Text → Text → Text
last_part part [] = part
last_part part (c ∷ s) =
    let ended = last_part [] s in
    let grown = last_part (part ++ c ∷ []) s in
    if c == b':' || c == b'.' then (if is_empty ended then part else ended) else grown

-- the name by which a file knows an import
pub local_name : ImportCandidate → Text
unfolding last_part
local_name i = elim i.target_symbol [ none ↦ last_part [] i.target_path | some symbol ↦ symbol ]

-- the module of an import whose local name is the qualifier
pub qualified_module : Text → ImportCandidate → Text → Option Text
unfolding last_segment local_name resolve_import_path join_module_symbol ends_with
qualified_module from_file i qualifier =
    let inside = resolve_import_path from_file i.target_path in
    if not (last_segment qualifier == local_name i)
    then none
    else some (
        if ends_with (codes ".rs") from_file && is_some i.target_symbol
        then join_module_symbol inside (local_name i)
        else inside)

-- `raw_ref.target_qualified.as_deref().unwrap_or_default()`
abbrev pub or_empty : Option Text → Text
or_empty none = []
or_empty (some t) = t

unfoldable pub import_module_for_ref : Text → ImportCandidate → RawRef → Option Text
unfolding normalize_module_path strip_suffix qualified_module resolve_import_path Option.bind
import_module_for_ref from_file i raw_ref =
    if i.target_symbol == some raw_ref.target_name
    then some (resolve_import_path from_file i.target_path)
    else Option.bind
        (strip_suffix (codes "::" ++ raw_ref.target_name)
          (normalize_module_path (or_empty raw_ref.target_qualified)))
        (qualified_module from_file i)

module _ (is_alphanumeric : ℕ → Bool) (index : Index) where
  -- the candidates of the file, without members where the ref names a free item
  unfoldable pub exact_candidates : Text → RawRef → List SymbolCandidate
  unfolding names_free_item is_member_symbol symbols_in_file_by_name
  exact_candidates from_file raw_ref =
      let candidates = symbols_in_file_by_name index from_file raw_ref.target_name in
      if names_free_item is_alphanumeric from_file raw_ref
      then filter (λ c. not (is_member_symbol is_alphanumeric c.qualified)) candidates
      else candidates

  -- the one candidate with the qualified name of the ref
  pub exact_qualified : Option Text → List SymbolCandidate → Option SymbolCandidate
  exact_qualified none candidates = none
  exact_qualified (some target) candidates =
      unique_candidate (filter (λ c. c.qualified == target) candidates)

  -- the candidate with the qualified name, or else the only one where the name is enough
  pub exact_of : Option Text → List SymbolCandidate → Bool → Option SymbolCandidate
  unfolding exact_qualified
  exact_of target_qualified candidates name_is_enough =
      elim (exact_qualified target_qualified candidates) [
        | some c ↦ some c
        | none ↦ if name_is_enough then unique_candidate candidates else none
      ]

  unfoldable pub resolve_exact : Text → RawRef → Option SymbolCandidate
  unfolding exact_candidates exact_of call_module_qualifier resolves_by_name_only
  resolve_exact from_file raw_ref =
      exact_of raw_ref.target_qualified (exact_candidates from_file raw_ref) (
        not (is_some (call_module_qualifier is_alphanumeric from_file raw_ref))
        && resolves_by_name_only raw_ref)

  unfoldable pub unique_qualified_match : Text → Text → Text → Option SymbolCandidate
  unfolding only_where symbols_by_name candidate_matches_qualified
  unique_qualified_match language name target =
      only_where
        (λ c. c.language == language && candidate_matches_qualified is_alphanumeric index c target)
        none (symbols_by_name is_alphanumeric index name)

  -- the target of a ref that `resolve_qualified` looks at
  pub qualified_target : Text → Text → Text → Option SymbolCandidate
  unfolding contains_text unique_qualified_match normalize_module_path
  qualified_target language name target =
      if not (contains_text (codes "::") target) && not (contains_text (codes ".") target)
      then none
      else unique_qualified_match language name (normalize_module_path target)

  unfoldable pub resolve_qualified : Text → RawRef → Option SymbolCandidate
  unfolding qualified_target Option.bind
  resolve_qualified language raw_ref =
      if raw_ref.kind == codes "use"
      then none
      else Option.bind raw_ref.target_qualified (qualified_target language raw_ref.target_name)

  -- whether an import of the module can mean the candidate
  pub import_match : Text → Bool → Text → NamedCandidate → Bool
  unfolding is_member_symbol candidate_matches_module
  import_match language free_item inside c =
      c.language == language
      && not (free_item && is_member_symbol is_alphanumeric c.symbol.qualified)
      && candidate_matches_module is_alphanumeric index c inside

  pub insert_matches :
      (NamedCandidate → Bool) → List NamedCandidate → List SymbolCandidate → List SymbolCandidate
  unfolding insert_match
  insert_matches passes [] found = found
  insert_matches passes (c ∷ cs) found =
      let added = insert_matches passes cs (insert_match c.symbol found) in
      let skipped = insert_matches passes cs found in if passes c then added else skipped

  -- the candidates that stand in the module of an import
  pub in_module : Text → Bool → Option Text → Text → List SymbolCandidate → List SymbolCandidate
  unfolding insert_matches import_match symbols_by_name normalize_module_path
  in_module language free_item none name found = found
  in_module language free_item (some path) name found =
      insert_matches (import_match language free_item (normalize_module_path path))
        (symbols_by_name is_alphanumeric index name) found

  -- the matches of one import
  unfoldable pub one_import :
      Text
      → Text
      → Bool
      → Bool
      → ImportCandidate
      → RawRef
      → List SymbolCandidate
      → List SymbolCandidate
  unfolding import_module_for_ref in_module
  one_import from_file language free_item explicit i raw_ref found =
      let named = i.target_symbol == some raw_ref.target_name in
      if (if explicit then not named else named)
      then found
      else in_module language free_item (import_module_for_ref from_file i raw_ref)
          raw_ref.target_name found

  -- the matches of all imports that name the target, or of all that do not
  unfoldable pub import_matches :
      Text
      → Text
      → Bool
      → Bool
      → List ImportCandidate
      → RawRef
      → List SymbolCandidate
      → List SymbolCandidate
  unfolding one_import
  import_matches from_file language free_item explicit [] raw_ref found = found
  import_matches from_file language free_item explicit (i ∷ imports) raw_ref found =
      import_matches from_file language free_item explicit imports raw_ref
        (one_import from_file language free_item explicit i raw_ref found)

  unfoldable pub resolve_import : Text → Text → List ImportCandidate → RawRef → ImportResolution
  unfolding import_matches names_free_item
  resolve_import from_file language imports raw_ref =
      let free_item = names_free_item is_alphanumeric from_file raw_ref in
      or_else (resolution_of (import_matches from_file language free_item true imports raw_ref []))
        (resolution_of (import_matches from_file language free_item false imports raw_ref []))

  -- whether the qualifier, if there is one, lets the candidate pass
  pub within_qualifier : Option Text → NamedCandidate → Bool
  unfolding candidate_within_module
  within_qualifier none c = true
  within_qualifier (some qualifier) c = candidate_within_module is_alphanumeric index c qualifier

  pub same_module_match : Text → Text → Bool → Option Text → List Text → NamedCandidate → Bool
  unfolding is_member_symbol within_qualifier candidate_shares_module
  same_module_match from_file language free_item qualifier prefixes c =
      c.language == language
      && not (c.symbol.file_path == from_file)
      && not (free_item && is_member_symbol is_alphanumeric c.symbol.qualified)
      && within_qualifier qualifier c
      && candidate_shares_module is_alphanumeric index c prefixes

  unfoldable pub resolve_same_module : Text → Text → RawRef → Option SymbolCandidate
  unfolding resolves_by_name_only module_prefixes_for_file only_where same_module_match
      names_free_item call_module_qualifier symbols_by_name
  resolve_same_module from_file language raw_ref =
      let prefixes = module_prefixes_for_file is_alphanumeric index from_file in
      if not (resolves_by_name_only raw_ref) || is_empty prefixes
      then none
      else only_where
          (same_module_match from_file language (names_free_item is_alphanumeric from_file raw_ref)
            (call_module_qualifier is_alphanumeric from_file raw_ref) prefixes)
          none (symbols_by_name is_alphanumeric index raw_ref.target_name)
