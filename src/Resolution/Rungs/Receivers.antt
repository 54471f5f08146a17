-- ===== src/Resolution/Rungs/Receivers.antt =====
-- The rungs of crates/orbit-graph/src/sync/pass2.rs for a call on a receiver of unknown type.
use mathlib.Core.Option
use orbit_graph.Common.{
  ℕ, Bool, true, false, not, ◌&&◌, List, none, ◌≡◌, refl, ap, ◌∙◌, inl, inr, Bool-cases, ◌==◌,
  nat_eq, list_eq,
}
use orbit_graph.Common.Text.{Text, codes, is_some}
use orbit_graph.Index.{Index}
use orbit_graph.Resolution.Raw.{RawRef, SymbolCandidate}
use orbit_graph.Resolution.Members.{call_module_qualifier}
use orbit_graph.Resolution.Rungs.{
  resolves_by_name_only, exact_candidates, exact_qualified, exact_of, resolve_exact,
  resolve_qualified, resolve_same_module,
}

module _ (is_alphanumeric : ℕ → Bool) (index : Index) (from_file language : Text) (r : RawRef)
    (unresolved : is_some r.unresolved_receiver ≡ true) where
  name_is_not_enough : resolves_by_name_only r ≡ false
  unfolding resolves_by_name_only
  name_is_not_enough = ap not unresolved

  pub resolve_same_module-none :
      resolve_same_module is_alphanumeric index from_file language r ≡ none
  unfolding resolve_same_module
  resolve_same_module-none = rw name_is_not_enough refl

  module _ (unqualified : r.target_qualified ≡ none) where
    pub resolve_qualified-none : resolve_qualified is_alphanumeric index language r ≡ none
    unfolding resolve_qualified Option.bind
    resolve_qualified-none = elim (Bool-cases (r.kind == codes "use")) [
      | inl e ↦ rw (e, resolve_qualified) refl
      | inr e ↦ rw (e, unqualified, resolve_qualified) refl
    ]

    exact_of-none :
        (cs : List SymbolCandidate) (enough : Bool)
        → enough ≡ false
        → exact_of is_alphanumeric index none cs enough ≡ none
    unfolding exact_of exact_qualified
    exact_of-none cs enough h = rw h refl

    and_false : (a b : Bool) → b ≡ false → (a && b) ≡ false
    and_false true b h = h
    and_false false b h = refl

    pub resolve_exact-none : resolve_exact is_alphanumeric index from_file r ≡ none
    unfolding resolve_exact
    resolve_exact-none =
        ap
          (λ target.
            exact_of is_alphanumeric index target
              (exact_candidates is_alphanumeric index from_file r)
              (not (is_some (call_module_qualifier is_alphanumeric from_file r))
                && resolves_by_name_only r))
          unqualified
        ∙ exact_of-none (exact_candidates is_alphanumeric index from_file r) _ (
            and_false (not (is_some (call_module_qualifier is_alphanumeric from_file r))) _
              name_is_not_enough)
