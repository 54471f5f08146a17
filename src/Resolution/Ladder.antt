-- ===== src/Resolution/Ladder.antt =====
-- `Resolver::resolve_ref`, `RefKey` and `Resolver::resolve_file` of
-- crates/orbit-graph/src/sync/pass2.rs.
pub mod Keys
pub mod Receivers
pub mod Sound
use mathlib.Core.Option
use orbit_graph.Common.{
  ℕ, Bool, true, false, not, ◌&&◌, ◌||◌, List, [], ◌∷◌, Option, none, some, Result, ok, err, ◌==◌,
  nat_eq, list_eq, option_eq, if◌then◌else◌,
}
use orbit_graph.Common.Text.{Text, codes, starts_with, is_some}
use orbit_graph.Index.{Index}
use orbit_graph.Index.Values.{GraphError, missing_file}
use orbit_graph.Resolution.Raw.{
  RawRef, SymbolCandidate, ImportCandidate, ImportResolution, ResolvedRef, fuzzy, candidate, unique,
  ambiguous, no_match, confidence_exact, confidence_import_resolved, confidence_same_module,
  runtime_invocation_kind,
}
use orbit_graph.Resolution.Members.{MemberTarget, of_ref}
use orbit_graph.Resolution.Candidates.{file_language, imports_for_file}
use orbit_graph.Resolution.Rungs.{
  resolves_by_name_only, resolve_exact, resolve_import, resolve_qualified, resolve_same_module,
}
use orbit_graph.Resolution.Reexports.{resolve_reexport}
use orbit_graph.Resolution.TypeMembers.{PackageIdentity, resolve_type_member}

-- a written path that begins with `self::` or `super::`
pub spells_scope : Option Text → Bool
unfolding starts_with
spells_scope none = false
spells_scope (some target) =
    starts_with (codes "self::") target || starts_with (codes "super::") target

pub record RefKey : Type 0 where
  pub is_runtime_invocation : Bool
  pub is_use : Bool
  pub name_only : Bool
  pub spelled_path : Bool
  pub target_name : Text
  pub target_qualified : Option Text

-- `RefKey::of`
unfoldable pub key_of : RawRef → RefKey
unfolding resolves_by_name_only
key_of raw_ref = record {
  is_runtime_invocation = raw_ref.kind == runtime_invocation_kind;
  is_use = raw_ref.kind == codes "use";
  name_only = resolves_by_name_only raw_ref;
  spelled_path = raw_ref.spelled_path;
  target_name = raw_ref.target_name;
  target_qualified = raw_ref.target_qualified;
}

abbrev pub bool_beq : Bool → Bool → Bool
bool_beq true b = b
bool_beq false b = not b

-- the derived equality of `RefKey`
pub key_beq : RefKey → RefKey → Bool
key_beq k l =
    bool_beq k.is_runtime_invocation l.is_runtime_invocation
    && bool_beq k.is_use l.is_use
    && bool_beq k.name_only l.name_only
    && bool_beq k.spelled_path l.spelled_path
    && k.target_name == l.target_name
    && k.target_qualified == l.target_qualified

-- `HashMap::get`
pub known : List (RefKey × ResolvedRef) → RefKey → Option ResolvedRef
unfolding key_beq
known [] key = none
known (entry ∷ memo) key =
    let later = known memo key in if key_beq entry.0 key then some entry.1 else later

-- a rung whose candidate ends the climb
abbrev pub first_of : Text → Option SymbolCandidate → ResolvedRef → ResolvedRef
first_of confidence (some c) rest = candidate c confidence
first_of confidence none rest = rest

-- a rung that also ends the climb where it finds several
abbrev pub settled : ImportResolution → ResolvedRef → ResolvedRef
settled (unique c) rest = candidate c confidence_import_resolved
settled ambiguous rest = fuzzy
settled no_match rest = rest

-- the rung of a ref that names a member of a type
abbrev pub or_ladder : Option ResolvedRef → ResolvedRef → ResolvedRef
or_ladder (some r) rest = r
or_ladder none rest = rest

module _ (is_alphanumeric : ℕ → Bool) (index : Index)
    (package_of : Text → Option PackageIdentity) where
  pub type_member_rung : Text → List ImportCandidate → RawRef → Option ResolvedRef
  unfolding of_ref resolve_type_member Option.bind
  type_member_rung from_file imports raw_ref =
      Option.bind (of_ref is_alphanumeric from_file raw_ref)
        (resolve_type_member is_alphanumeric index package_of from_file imports)

  -- the rungs below the qualified one
  pub lower_rungs : Text → Text → RawRef → ResolvedRef
  unfolding spells_scope resolve_same_module resolve_reexport
  lower_rungs from_file language raw_ref =
      let same_module = resolve_same_module is_alphanumeric index from_file language raw_ref in
      let last = first_of confidence_same_module same_module fuzzy in
      let is_rust = language == codes "rust" in
      let reexport =
        if is_rust && raw_ref.spelled_path
        then settled (resolve_reexport is_alphanumeric index from_file raw_ref) last
        else last in
      if is_rust && raw_ref.spelled_path && spells_scope raw_ref.target_qualified
      then first_of confidence_same_module same_module reexport
      else reexport

  unfoldable pub resolve_ref : Text → Text → List ImportCandidate → RawRef → ResolvedRef
  unfolding type_member_rung lower_rungs resolve_exact resolve_import resolve_qualified
  resolve_ref from_file language imports raw_ref =
      if raw_ref.kind == runtime_invocation_kind
      then fuzzy
      else or_ladder (type_member_rung from_file imports raw_ref) (
          first_of confidence_exact (resolve_exact is_alphanumeric index from_file raw_ref) (
            settled (resolve_import is_alphanumeric index from_file language imports raw_ref) (
              first_of confidence_exact (resolve_qualified is_alphanumeric index language raw_ref)
                (lower_rungs from_file language raw_ref))))

  -- the loop of `resolve_file`: each ref once for its key
  pub resolve_refs :
      Text
      → Text
      → List ImportCandidate
      → List (RefKey × ResolvedRef)
      → List RawRef
      → List ResolvedRef
  unfolding key_of known resolve_ref
  resolve_refs from_file language imports memo [] = []
  resolve_refs from_file language imports memo (raw_ref ∷ raw_refs) =
      elim (known memo (key_of raw_ref)) [
        | some r ↦ r ∷ resolve_refs from_file language imports memo raw_refs
        | none ↦
            let result = resolve_ref from_file language imports raw_ref in
            result
            ∷ resolve_refs from_file language imports ((key_of raw_ref, result) ∷ memo) raw_refs
      ]

  unfoldable pub resolve_file : Text → List RawRef → Result GraphError (List ResolvedRef)
  unfolding file_language imports_for_file resolve_refs
  resolve_file from_file raw_refs = elim (file_language index from_file) [
    | none ↦ err (missing_file from_file)
    | some language ↦
        ok (resolve_refs from_file language (imports_for_file index from_file) [] raw_refs)
  ]
