-- ===== src/Resolution/Ladder/Receivers.antt =====
-- `resolve_ref` of crates/orbit-graph/src/sync/pass2.rs for a call on a receiver of unknown type.
use mathlib.Core.Option
use orbit_graph.Common.{
  ℕ, Bool, true, false, not, ◌&&◌, ◌||◌, List, Option, none, ◌≡◌, refl, inl, inr, ◌⊎◌, Bool-cases,
  ◌==◌, nat_eq, list_eq, if◌then◌else◌,
}
use orbit_graph.Common.Text.{Text, codes, is_some, ends_with}
use orbit_graph.Index.{Index}
use orbit_graph.Resolution.Raw.{
  RawRef, SymbolCandidate, ImportCandidate, ImportResolution, unique, ambiguous, no_match,
  ResolvedRef, fuzzy, candidate, confidence_import_resolved, runtime_invocation_kind,
}
use orbit_graph.Resolution.Members.{of_ref}
use orbit_graph.Resolution.Rungs.{resolve_import}
use orbit_graph.Resolution.Rungs.Receivers.{
  resolve_same_module-none, resolve_qualified-none, resolve_exact-none,
}
use orbit_graph.Resolution.Reexports.{resolve_reexport}
use orbit_graph.Resolution.TypeMembers.{PackageIdentity}
use orbit_graph.Resolution.Ladder.{
  spells_scope, settled, type_member_rung, lower_rungs, resolve_ref,
}

-- Fuzzy, or the one candidate that the imports of the file lead to.
abbrev pub IsImportedOrFuzzy : ImportResolution → ResolvedRef → Type 0
IsImportedOrFuzzy imported resolved =
    (resolved ≡ fuzzy)
    ⊎ ((c : SymbolCandidate) × (imported ≡ unique c)
        × (resolved ≡ candidate c confidence_import_resolved))

settled-IsImportedOrFuzzy :
    (imported : ImportResolution) → IsImportedOrFuzzy imported (settled imported fuzzy)
settled-IsImportedOrFuzzy (unique c) = inr (c, refl, refl)
settled-IsImportedOrFuzzy ambiguous = inl refl
settled-IsImportedOrFuzzy no_match = inl refl

module _ (is_alphanumeric : ℕ → Bool) (index : Index) (package_of : Text → Option PackageIdentity)
    (from_file language : Text) (imports : List ImportCandidate) (r : RawRef)
    (unresolved : is_some r.unresolved_receiver ≡ true)
    (unqualified : r.target_qualified ≡ none) where
  of_ref-none : of_ref is_alphanumeric from_file r ≡ none
  unfolding of_ref Option.bind
  of_ref-none =
      elim (Bool-cases (not (ends_with (codes ".rs") from_file) || r.kind == codes "use")) [
        | inl e ↦ rw (e, of_ref) refl
        | inr e ↦ rw (e, unqualified, of_ref) refl
      ]

  type_member_rung-none :
      type_member_rung is_alphanumeric index package_of from_file imports r ≡ none
  unfolding type_member_rung Option.bind
  type_member_rung-none = rw of_ref-none refl

  resolve_reexport-no_match : resolve_reexport is_alphanumeric index from_file r ≡ no_match
  unfolding resolve_reexport
  resolve_reexport-no_match = rw unqualified refl

  lower_rungs-fuzzy : lower_rungs is_alphanumeric index package_of from_file language r ≡ fuzzy
  unfolding lower_rungs spells_scope
  lower_rungs-fuzzy =
      rw
        (
          resolve_same_module-none is_alphanumeric index from_file language r unresolved,
          resolve_reexport-no_match,
          unqualified,
        )
        (stays (language == codes "rust") r.spelled_path)
    where
      stays :
          (a b : Bool)
          → (if a && b && false
              then (if a && b then fuzzy else fuzzy)
              else (if a && b then fuzzy else fuzzy))
            ≡ fuzzy
      stays true true = refl
      stays true false = refl
      stays false true = refl
      stays false false = refl

  -- A ref with an unresolved receiver and without a qualified target is not resolved by its name
  -- alone: it resolves to fuzzy, or, at import_resolved, to the one candidate that
  -- `resolve_import` finds.
  pub resolve_ref-IsImportedOrFuzzy :
      IsImportedOrFuzzy
        (resolve_import is_alphanumeric index from_file language imports r)
        (resolve_ref is_alphanumeric index package_of from_file language imports r)
  unfolding resolve_ref
  resolve_ref-IsImportedOrFuzzy = elim (Bool-cases (r.kind == runtime_invocation_kind)) [
    | inl e ↦ rw (e, resolve_ref) (inl refl)
    | inr e ↦
        rw
          (
            e,
            resolve_ref,
            type_member_rung-none,
            resolve_exact-none is_alphanumeric index from_file language r unresolved unqualified,
            resolve_qualified-none is_alphanumeric index from_file language r unresolved
                unqualified,
            lower_rungs-fuzzy,
          )
          (settled-IsImportedOrFuzzy
            (resolve_import is_alphanumeric index from_file language imports r))
  ]
