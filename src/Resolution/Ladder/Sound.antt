-- ===== src/Resolution/Ladder/Sound.antt =====
-- The targets of `resolve_ref` of crates/orbit-graph/src/sync/pass2.rs.
use mathlib.Core.Option
use orbit_graph.Common.{
  ℕ, Bool, true, false, ◌&&◌, List, Option, none, some, ◌≡◌, refl, subst, inl, inr, ◌⊎◌, ◌==◌,
  eq_iff, nat_eq, list_eq, Bool-cases, bind-eq-some, if◌then◌else◌, not, ◌||◌,
}
use orbit_graph.Common.Text.{Text, codes, ends_with}
use orbit_graph.Index.{Index}
use orbit_graph.Resolution.Raw.{
  RawRef, SymbolCandidate, ImportCandidate, ImportResolution, unique, ambiguous, no_match,
  ResolvedRef, fuzzy, candidate, confidence_exact, confidence_import_resolved,
  confidence_same_module, runtime_invocation_kind,
}
use orbit_graph.Resolution.Members.{MemberTarget, of_ref, parse}
use orbit_graph.Resolution.Candidates.Defined.{IsDefined, IsNamed}
use orbit_graph.Resolution.Rungs.{
  resolve_exact, resolve_import, resolve_qualified, resolve_same_module,
}
use orbit_graph.Resolution.Rungs.Sound.{
  resolve_exact-IsNamed, resolve_import-IsNamed, resolve_qualified-IsNamed,
  resolve_same_module-IsNamed,
}
use orbit_graph.Resolution.Reexports.{resolve_reexport}
use orbit_graph.Resolution.Reexports.Sound.{resolve_reexport-IsDefined}
use orbit_graph.Resolution.TypeMembers.{PackageIdentity, resolve_type_member}
use orbit_graph.Resolution.TypeMembers.Sound.{IsMember, resolve_type_member-IsMember}
use orbit_graph.Resolution.Ladder.{
  spells_scope, first_of, settled, or_ladder, type_member_rung, lower_rungs, resolve_ref,
}

-- Fuzzy, or a candidate that a row defines; it has the name of the ref, unless an import or a
-- re-export resolved it.
abbrev pub IsResolved : Index → Text → ResolvedRef → Type 0
IsResolved index name r =
    (r ≡ fuzzy)
    ⊎ ((c : SymbolCandidate) × (confidence : Text) × IsDefined index c
        × ((c.name ≡ name) ⊎ (confidence ≡ confidence_import_resolved))
        × (r ≡ candidate c confidence))

module _ (is_alphanumeric : ℕ → Bool) (index : Index)
    (package_of : Text → Option PackageIdentity) where
  first_of-IsResolved :
      (name confidence : Text) (found : Option SymbolCandidate) (rest : ResolvedRef)
      → ((c : SymbolCandidate) → found ≡ some c → IsNamed index name c)
      → IsResolved index name rest
      → IsResolved index name (first_of confidence found rest)
  first_of-IsResolved name confidence none rest h below = below
  first_of-IsResolved name confidence (some c) rest h below =
      let (defined, same) = h c refl in inr (c, confidence, defined, inl same, refl)

  settled-IsResolved :
      (name : Text) (found : ImportResolution) (rest : ResolvedRef)
      → ((c : SymbolCandidate) → found ≡ unique c → IsDefined index c)
      → IsResolved index name rest
      → IsResolved index name (settled found rest)
  settled-IsResolved name no_match rest h below = below
  settled-IsResolved name ambiguous rest h below = inl refl
  settled-IsResolved name (unique c) rest h below =
      inr (c, confidence_import_resolved, h c refl, inr refl, refl)

  or_ladder-IsResolved :
      (name : Text) (found : Option ResolvedRef) (rest : ResolvedRef)
      → ((r : ResolvedRef) → found ≡ some r → IsMember index name r)
      → IsResolved index name rest
      → IsResolved index name (or_ladder found rest)
  or_ladder-IsResolved name none rest h below = below
  or_ladder-IsResolved name (some r) rest h below = elim (h r refl) [
    | inl e ↦ inl e
    | inr (c, confidence, (defined, same), e) ↦ inr (c, confidence, defined, inl same, e)
  ]

  of_ref-member :
      (from_file : Text) (r : RawRef) (target : MemberTarget)
      → of_ref is_alphanumeric from_file r ≡ some target
      → target.member ≡ r.target_name
  unfolding of_ref
  of_ref-member from_file r target e =
      elim (Bool-cases (not (ends_with (codes ".rs") from_file) || r.kind == codes "use")) [
        | inl f ↦ absurd (cc (rw (f, of_ref) at e))
        | inr f ↦
            let (read, _, kept) =
              bind-eq-some (Option.bind r.target_qualified (parse is_alphanumeric)) _
                (rw (f, of_ref) at e) in
            elim (Bool-cases (read.member == r.target_name)) [
              | inl g ↦
                  let same : ◌≡◌ {A = Option MemberTarget} (some read) (some target) =
                    rw g at kept in
                  let equal : read ≡ target = cc in
                  subst (λ (t : MemberTarget). t.member ≡ r.target_name) equal
                    ((eq_iff read.member r.target_name).0 g)
              | inr g ↦ absurd (cc (rw g at kept))
            ]
      ]

  type_member_rung-IsMember :
      (from_file : Text) (imports : List ImportCandidate) (r : RawRef) (resolved : ResolvedRef)
      → type_member_rung is_alphanumeric index package_of from_file imports r ≡ some resolved
      → IsMember index r.target_name resolved
  unfolding type_member_rung
  type_member_rung-IsMember from_file imports r resolved e =
      let (target, found, member) =
        bind-eq-some (of_ref is_alphanumeric from_file r)
          (resolve_type_member is_alphanumeric index package_of from_file imports) e in
      subst (λ name. IsMember index name resolved) (of_ref-member from_file r target found)
        (resolve_type_member-IsMember is_alphanumeric index package_of from_file imports target
          resolved member)

  lower_rungs-IsResolved :
      (from_file language : Text) (r : RawRef)
      → IsResolved index r.target_name
          (lower_rungs is_alphanumeric index package_of from_file language r)
  unfolding lower_rungs
  lower_rungs-IsResolved from_file language r =
      let found = resolve_same_module is_alphanumeric index from_file language r in
      let is_rust = language == codes "rust" in
      let here = resolve_same_module-IsNamed is_alphanumeric index from_file language r in
      let last : IsResolved index r.target_name (first_of confidence_same_module found fuzzy) =
        first_of-IsResolved r.target_name confidence_same_module found fuzzy here (inl refl) in
      let reexport : IsResolved index r.target_name (
          if is_rust && r.spelled_path
          then settled (resolve_reexport is_alphanumeric index from_file r)
              (first_of confidence_same_module found fuzzy)
          else first_of confidence_same_module found fuzzy) =
        either (is_rust && r.spelled_path) r.target_name _ _
          (settled-IsResolved r.target_name (resolve_reexport is_alphanumeric index from_file r) _
            (resolve_reexport-IsDefined is_alphanumeric index from_file r) last)
          last in
      either (is_rust && r.spelled_path && spells_scope r.target_qualified) r.target_name _ _
        (first_of-IsResolved r.target_name confidence_same_module found _ here reexport) reexport
    where
      either :
          (b : Bool) (name : Text) (r s : ResolvedRef)
          → IsResolved index name r
          → IsResolved index name s
          → IsResolved index name (if b then r else s)
      either true name r s f g = f
      either false name r s f g = g

  -- What a ref resolves to is fuzzy, without a target, or the qualified name and the id of one
  -- row of the symbols that is no impl block; that row has the target name of the ref, unless
  -- the confidence is import_resolved.
  pub resolve_ref-IsResolved :
      (from_file language : Text) (imports : List ImportCandidate) (r : RawRef)
      → IsResolved index r.target_name
          (resolve_ref is_alphanumeric index package_of from_file language imports r)
  unfolding resolve_ref
  resolve_ref-IsResolved from_file language imports r =
      elim (Bool-cases (r.kind == runtime_invocation_kind)) [
        | inl e ↦ rw (e, resolve_ref) (inl refl)
        | inr e ↦
            rw (e, resolve_ref)
              (or_ladder-IsResolved r.target_name
                (type_member_rung is_alphanumeric index package_of from_file imports r) _
                (type_member_rung-IsMember from_file imports r)
                (first_of-IsResolved r.target_name confidence_exact
                  (resolve_exact is_alphanumeric index from_file r) _
                  (resolve_exact-IsNamed is_alphanumeric index from_file r)
                  (settled-IsResolved r.target_name
                    (resolve_import is_alphanumeric index from_file language imports r) _
                    (λ c f.
                      (resolve_import-IsNamed is_alphanumeric index from_file language imports r c
                        f).0)
                    (first_of-IsResolved r.target_name confidence_exact
                      (resolve_qualified is_alphanumeric index language r) _
                      (resolve_qualified-IsNamed is_alphanumeric index language r)
                      (lower_rungs-IsResolved from_file language r)))))
      ]
