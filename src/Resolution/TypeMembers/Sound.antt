-- ===== src/Resolution/TypeMembers/Sound.antt =====
-- The candidates of the type-member rung, crates/orbit-graph/src/sync/pass2/type_member.rs.
use mathlib.Core.Option
use orbit_graph.Common.{
  ℕ, Bool, true, false, not, ◌&&◌, ◌||◌, List, [], ◌∷◌, Option, none, some, ◌≡◌, sym, ap, subst,
  inl, inr, ◌⊎◌, ◌==◌, nat_eq, list_eq, Option-cases, Bool-cases, All, All-filter, All-map,
  All-collect, filter, is_empty, length, all,
}
use orbit_graph.Common.Text.{Text}
use orbit_graph.Index.{Index}
use orbit_graph.Resolution.Raw.{
  SymbolCandidate, NamedCandidate, ImportCandidate, ResolvedRef, fuzzy, candidate, confidence_exact,
  confidence_same_module,
}
use orbit_graph.Resolution.Members.{MemberTarget, Tier}
use orbit_graph.Resolution.Candidates.{
  symbols_by_name, candidate_shares_module, module_prefixes_for_file,
}
use orbit_graph.Resolution.Candidates.Defined.{IsNamed, symbols_by_name-IsNamed}
use orbit_graph.Resolution.Rungs.{unique_candidate}
use orbit_graph.Resolution.Rungs.Sound.{All-unique_candidate}
use orbit_graph.Resolution.TypeMembers.{
  PackageIdentity, Ranked, ScopedModule, best_tier, member_tier, members_of, type_scope,
  member_within_scope, chosen, nearby, pick_nearest, pick_scoped, pick_elsewhere, pick_unscoped,
  default_impls, declares, one_file, resolve_trait_default, pick, or_fuzzy, resolve_type_member,
}

-- Fuzzy, or a defined candidate with this name, at some confidence.
abbrev pub IsMember : Index → Text → ResolvedRef → Type 0
IsMember index name r =
    (r ≡ fuzzy)
    ⊎ ((c : SymbolCandidate) × (confidence : Text) × IsNamed index name c
        × (r ≡ candidate c confidence))

module _ (is_alphanumeric : ℕ → Bool) (index : Index) (package_of : Text → Option PackageIdentity)
    (name : Text) where
  abbrev Good : NamedCandidate → Type 0
  Good c = IsNamed index name c.symbol

  abbrev GoodMember : Ranked → Type 0
  GoodMember m = Good m.1

  found_one :
      (c : NamedCandidate) (confidence : Text) (r : ResolvedRef)
      → Good c
      → candidate c.symbol confidence ≡ r
      → IsMember index name r
  found_one c confidence r good e = inr (c.symbol, confidence, good, sym e)

  some_injective : (r s : ResolvedRef) → some r ≡ some s → r ≡ s
  some_injective r s e = cc

  chosen-IsMember :
      (confidence : Text) (cs : List NamedCandidate) (r : ResolvedRef)
      → All Good cs
      → chosen is_alphanumeric index package_of confidence (unique_candidate cs) ≡ some r
      → IsMember index name r
  chosen-IsMember confidence [] r h e = absurd (cc)
  chosen-IsMember confidence (c ∷ []) r h e = found_one c confidence r h.0 (some_injective _ r e)
  chosen-IsMember confidence (c ∷ d ∷ cs) r h e = absurd (cc)

  All-best_tier : (members : List Ranked) → All GoodMember members → All Good (best_tier members)
  unfolding best_tier
  All-best_tier members h = All-map Good (λ (m : Ranked). m.1) _ (All-filter GoodMember _ members h)

  pick_nearest-IsMember :
      (from_file : Text) (pool : List NamedCandidate) (r : ResolvedRef)
      → All Good pool
      → pick_nearest is_alphanumeric index package_of from_file pool ≡ some r
      → IsMember index name r
  unfolding pick_nearest
  pick_nearest-IsMember from_file pool r h e =
      elim (Option-cases (unique_candidate (filter (λ c. c.symbol.file_path == from_file) pool))) [
        | inr (only, f) ↦
            found_one only confidence_exact r
              (All-unique_candidate Good (filter (λ c. c.symbol.file_path == from_file) pool) only
                (All-filter Good _ pool h) f)
              (some_injective _ r (rw (f, pick_nearest) at e))
        | inl f ↦
            chosen-IsMember confidence_same_module
              (nearby is_alphanumeric index package_of from_file pool) r (All-filter Good _ pool h)
              (rw (f, pick_nearest) at e)
      ]

  pick_scoped-IsMember :
      (from_file : Text) (in_scope : List Ranked) (total : ℕ) (r : ResolvedRef)
      → All GoodMember in_scope
      → pick_scoped is_alphanumeric index package_of from_file in_scope total ≡ some r
      → IsMember index name r
  unfolding pick_scoped
  pick_scoped-IsMember from_file in_scope total r h e =
      let good = All-best_tier in_scope h in
      elim (Option-cases (unique_candidate (best_tier in_scope))) [
        | inr (only, f) ↦
            found_one only _ r (All-unique_candidate Good (best_tier in_scope) only good f)
              (some_injective _ r (rw (f, pick_scoped) at e))
        | inl f ↦
            pick_nearest-IsMember from_file (best_tier in_scope) r good (rw (f, pick_scoped) at e)
      ]

  pick_elsewhere-IsMember :
      (members : List Ranked) (r : ResolvedRef)
      → All GoodMember members
      → pick_elsewhere is_alphanumeric index package_of members ≡ some r
      → IsMember index name r
  unfolding pick_elsewhere
  pick_elsewhere-IsMember members r h e =
      elim (Option-cases (unique_candidate (best_tier members))) [
        | inl f ↦ absurd (cc (rw (f, pick_elsewhere) at e))
        | inr (only, f) ↦
            elim (Bool-cases (all (λ m. m.1.symbol.file_path == only.symbol.file_path) members)) [
              | inl g ↦
                  found_one only confidence_exact r
                    (All-unique_candidate Good (best_tier members) only (All-best_tier members h) f)
                    (some_injective _ r (rw (f, g, pick_elsewhere) at e))
              | inr g ↦ absurd (cc (rw (f, g, pick_elsewhere) at e))
            ]
      ]

  unscoped_step :
      (from_file : Text) (members : List Ranked) (r : ResolvedRef)
      → All GoodMember members
      → unique_candidate members ≡ none
      → pick_unscoped is_alphanumeric index package_of from_file members ≡ some r
      → IsMember index name r
  unfolding pick_unscoped
  unscoped_step from_file members r h f e =
      let same_file = filter (λ m. m.1.symbol.file_path == from_file) members in
      let near =
        filter
          (λ m.
            candidate_shares_module is_alphanumeric index m.1
              (module_prefixes_for_file is_alphanumeric index from_file))
          members in
      elim (Bool-cases (not (is_empty same_file))) [
        | inl g ↦
            chosen-IsMember confidence_exact (best_tier same_file) r
              (All-best_tier same_file (All-filter GoodMember _ members h))
              (rw (f, g, pick_unscoped) at e)
        | inr g ↦ elim (Bool-cases (not (is_empty near))) [
          | inl k ↦
              chosen-IsMember confidence_same_module (best_tier near) r
                (All-best_tier near (All-filter GoodMember _ members h))
                (rw (f, g, k, pick_unscoped) at e)
          | inr k ↦ pick_elsewhere-IsMember members r h (rw (f, g, k, pick_unscoped) at e)
        ]
      ]

  pick_unscoped-IsMember :
      (from_file : Text) (members : List Ranked) (r : ResolvedRef)
      → All GoodMember members
      → pick_unscoped is_alphanumeric index package_of from_file members ≡ some r
      → IsMember index name r
  unfolding pick_unscoped
  pick_unscoped-IsMember from_file members r h e = elim (Option-cases (unique_candidate members)) [
    | inl f ↦ unscoped_step from_file members r h f e
    | inr ((tier, only), f) ↦
        found_one only confidence_exact r (All-unique_candidate GoodMember members (tier, only) h f)
          (some_injective _ r (rw (f, pick_unscoped) at e))
  ]

with_tier :
    (c : NamedCandidate) (tier : Option Tier) (m : Ranked)
    → Option.map {A = Tier} {B = Ranked} (λ t. (t, c)) tier ≡ some m
    → m.1 ≡ c
with_tier c none m e = absurd (cc)
with_tier c (some t) m e =
    let same : ◌≡◌ {A = Ranked} (t, c) m = cc in sym (ap (λ (n : Ranked). n.1) same)

module _ (is_alphanumeric : ℕ → Bool) (index : Index)
    (package_of : Text → Option PackageIdentity) where
  members_of-IsNamed :
      (target : MemberTarget)
      → All
          (λ m. IsNamed index target.member m.1.symbol)
          (members_of is_alphanumeric index package_of target)
  unfolding members_of
  members_of-IsNamed target =
      All-collect (λ (m : Ranked). IsNamed index target.member m.1.symbol)
        (λ c. IsNamed index target.member c.symbol)
        (member_tier is_alphanumeric index package_of target)
        (symbols_by_name is_alphanumeric index target.member)
        (λ c m h e.
          subst (λ (d : NamedCandidate). IsNamed index target.member d.symbol)
            (sym (with_tier c _ m e)) h)
        (symbols_by_name-IsNamed is_alphanumeric index target.member)

  resolve_trait_default-IsMember :
      (target : MemberTarget) (scope : List ScopedModule) (r : ResolvedRef)
      → resolve_trait_default is_alphanumeric index package_of target scope ≡ some r
      → IsMember index target.member r
  unfolding resolve_trait_default
  resolve_trait_default-IsMember target scope r e =
      let impls = default_impls is_alphanumeric index package_of target scope in
      elim (Bool-cases (
        target.trait_object
        || is_empty impls
        || (is_empty scope && not (one_file is_alphanumeric index package_of impls)))) [
          | inl f ↦ absurd (cc (rw (f, resolve_trait_default) at e))
          | inr f ↦
              chosen-IsMember is_alphanumeric index package_of target.member confidence_exact
                (filter (declares is_alphanumeric index package_of impls)
                  (symbols_by_name is_alphanumeric index target.member))
                r
                (All-filter (λ c. IsNamed index target.member c.symbol) _
                  (symbols_by_name is_alphanumeric index target.member)
                  (symbols_by_name-IsNamed is_alphanumeric index target.member))
                (rw (f, resolve_trait_default) at e)
        ]

  pick-IsMember :
      (target : MemberTarget) (from_file : Text) (members : List Ranked) (scope : List ScopedModule)
      (r : ResolvedRef)
      → All (λ m. IsNamed index target.member m.1.symbol) members
      → pick is_alphanumeric index package_of from_file members scope ≡ some r
      → IsMember index target.member r
  unfolding pick
  pick-IsMember target from_file members scope r h e = elim (Bool-cases (is_empty scope)) [
    | inl f ↦
        pick_unscoped-IsMember is_alphanumeric index package_of target.member from_file members r h
          (rw (f, pick) at e)
    | inr f ↦
        pick_scoped-IsMember is_alphanumeric index package_of target.member from_file
          (filter (λ m. member_within_scope is_alphanumeric index package_of m.1 scope) members)
          (length members) r
          (All-filter (λ (m : Ranked). IsNamed index target.member m.1.symbol) _ members h)
          (rw (f, pick) at e)
  ]

  or_fuzzy-IsMember :
      (name : Text) (picked default_body : Option ResolvedRef) (goes_on : Bool) (r : ResolvedRef)
      → (picked ≡ some r → IsMember index name r)
      → (default_body ≡ some r → IsMember index name r)
      → or_fuzzy picked default_body goes_on ≡ some r
      → IsMember index name r
  or_fuzzy-IsMember name (some s) default_body goes_on r f g e = f e
  or_fuzzy-IsMember name none (some s) goes_on r f g e = g e
  or_fuzzy-IsMember name none none true r f g e = absurd (cc)
  or_fuzzy-IsMember name none none false r f g e = inl (cc)

  pub resolve_type_member-IsMember :
      (from_file : Text) (imports : List ImportCandidate) (target : MemberTarget) (r : ResolvedRef)
      → resolve_type_member is_alphanumeric index package_of from_file imports target ≡ some r
      → IsMember index target.member r
  unfolding resolve_type_member
  resolve_type_member-IsMember from_file imports target r e =
      let members = members_of is_alphanumeric index package_of target in
      let scope = type_scope is_alphanumeric index package_of from_file imports target in
      or_fuzzy-IsMember target.member
        (pick is_alphanumeric index package_of from_file members scope)
        (resolve_trait_default is_alphanumeric index package_of target scope) _ r
        (pick-IsMember target from_file members scope r (members_of-IsNamed target))
        (resolve_trait_default-IsMember target scope r) e
