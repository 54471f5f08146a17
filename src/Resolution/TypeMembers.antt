-- ===== src/Resolution/TypeMembers.antt =====
-- The type-member rung of crates/orbit-graph/src/sync/pass2/type_member.rs. `PackageIdentity::read`
-- reads `Cargo.toml` files from the worktree: a parameter, `package_of`. A path is the list of its
-- components.
pub mod Sound
use mathlib.Core.Option
use orbit_graph.Common.{
  ℕ, Bool, true, false, not, ◌&&◌, ◌||◌, List, [], ◌∷◌, ◌++◌, Option, none, some, ◌==◌, nat_eq,
  list_eq, option_eq, ltb, filter, any, all, map, is_empty, contains, collect, length,
  if◌then◌else◌,
}
use orbit_graph.Common.Text.{Text, codes, is_some, split_once_text}
use orbit_graph.Index.{Index}
use orbit_graph.Resolution.Raw.{
  SymbolCandidate, NamedCandidate, ImportCandidate, ResolvedRef, fuzzy, candidate, confidence_exact,
  confidence_import_resolved, confidence_same_module,
}
use orbit_graph.Resolution.Names.{normalize_module_path, replace, resolve_import_path}
use orbit_graph.Resolution.Members.{
  MemberTarget, Tier, tier_rank, tier_of, parse, impl_type_and_trait, prefix_within_module,
}
use orbit_graph.Resolution.Candidates.{
  named, symbol_candidate_from_row, by_qualified, symbols_by_name, module_prefixes_for_file,
  candidate_shares_module, candidate_within_module,
}
use orbit_graph.Resolution.Rungs.{unique_candidate}

pub record PackageIdentity : Type 0 where
  pub source_path : List Text
  pub manifest_dir : List Text
  pub library_root : List Text
  pub aliases : List Text

-- `Path::strip_prefix`
pub strip_components : List Text → List Text → Option (List Text)
strip_components [] path = some path
strip_components (p ∷ ps) [] = none
strip_components (p ∷ ps) (q ∷ path) =
    let rest = strip_components ps path in if p == q then rest else none

-- `Path::parent`, of a path with a file name
pub parent_of : List Text → List Text
parent_of [] = []
parent_of (p ∷ []) = []
parent_of (p ∷ q ∷ path) = p ∷ parent_of (q ∷ path)

abbrev other_targets : List (List Text)
other_targets =
    (codes "tests" ∷ [])
    ∷ (codes "examples" ∷ [])
    ∷ (codes "benches" ∷ [])
    ∷ (codes "src" ∷ codes "bin" ∷ [])
    ∷ []

pub contains_library_file : PackageIdentity → List Text → Bool
unfolding strip_components parent_of
contains_library_file owner path = elim (strip_components owner.manifest_dir path) [
  | none ↦ false
  | some relative ↦
      if any (λ target. is_some (strip_components target relative)) other_targets
        || relative == codes "src" ∷ codes "main.rs" ∷ []
      then false
      else path == owner.library_root
        || is_some (strip_components (parent_of owner.library_root) path)
]

pub record ScopedModule : Type 0 where
  pub inside : Text
  pub package_dir : Option (List Text)

-- a member with its tier
abbrev pub Ranked : Type 0
Ranked = Tier × NamedCandidate

-- `best_tier`: the members of the lowest tier there is
pub best_tier : List Ranked → List NamedCandidate
best_tier members =
    map {A = Ranked} (λ m. m.1)
      (filter (λ m. all (λ other. not (ltb (tier_rank other.0) (tier_rank m.0))) members) members)

-- the modules of a path: the library of the own package, or a module of the index
pub scoped : Text → Option PackageIdentity → Text → Option ScopedModule
unfolding normalize_module_path replace split_once_text resolve_import_path
scoped from_file owner path =
    let normalized = replace b'-' (codes "_") (normalize_module_path path) in
    let parts : Text × Text = elim (split_once_text (codes "::") normalized) [
      | none ↦ (normalized, [])
      | some p ↦ p
    ] in
    let resolved = replace b'-' (codes "_") (resolve_import_path from_file path) in
    let plain : Option ScopedModule =
      if is_empty resolved then none else some (record { inside = resolved; package_dir = none }) in
    elim owner [
      | none ↦ plain
      | some p ↦
          if contains p.aliases parts.0
          then some (record { inside = parts.1; package_dir = some p.manifest_dir })
          else plain
    ]

-- the paths that name the type: the written one, or those of its imports
pub type_paths : List ImportCandidate → MemberTarget → List Text
type_paths imports target =
    if is_empty target.type_path
    then map (λ i. i.target_path) (filter (λ i. i.target_symbol == some target.type_name) imports)
    else target.type_path ∷ []

-- the member picked, or else a default body, or else fuzzy unless the ladder goes on
abbrev pub or_fuzzy : Option ResolvedRef → Option ResolvedRef → Bool → Option ResolvedRef
or_fuzzy (some r) default_body goes_on = some r
or_fuzzy none (some r) goes_on = some r
or_fuzzy none none goes_on = if goes_on then none else some fuzzy

module _ (is_alphanumeric : ℕ → Bool) (index : Index)
    (package_of : Text → Option PackageIdentity) where
  pub member_tier : MemberTarget → NamedCandidate → Option Ranked
  unfolding parse tier_of Option.bind
  member_tier target c =
      Option.map {A = Tier} {B = Ranked} (λ tier. (tier, c))
        (Option.bind (parse is_alphanumeric c.symbol.qualified) (tier_of target))

  pub members_of : MemberTarget → List Ranked
  unfolding member_tier symbols_by_name
  members_of target =
      collect (member_tier target) (symbols_by_name is_alphanumeric index target.member)

  pub type_scope : Text → List ImportCandidate → MemberTarget → List ScopedModule
  unfolding scoped type_paths
  type_scope from_file imports target =
      collect (scoped from_file (package_of from_file)) (type_paths imports target)

  -- whether the scope's package lets the candidate pass, and whether it needs no module
  pub in_package : NamedCandidate → Option (List Text) → Bool
  unfolding contains_library_file
  in_package c none = true
  in_package c (some dir) = elim (package_of c.symbol.file_path) [
    | none ↦ false
    | some p ↦ p.manifest_dir == dir && contains_library_file p p.source_path
  ]

  pub within_one : NamedCandidate → Text → ScopedModule → Bool
  unfolding in_package prefix_within_module candidate_within_module
  within_one c own_path item =
      in_package c item.package_dir
      && ((is_some item.package_dir && is_empty item.inside)
          || (not (is_empty own_path) && prefix_within_module own_path item.inside)
          || candidate_within_module is_alphanumeric index c item.inside)

  pub member_within_scope : NamedCandidate → List ScopedModule → Bool
  unfolding within_one parse normalize_module_path
  member_within_scope c scope =
      let own_path : Text = elim (parse is_alphanumeric c.symbol.qualified) [
        | none ↦ []
        | some parsed ↦ normalize_module_path parsed.type_path
      ] in
      any (within_one c own_path) scope

  abbrev pub chosen : Text → Option NamedCandidate → Option ResolvedRef
  chosen confidence none = none
  chosen confidence (some only) = some (candidate only.symbol confidence)

  abbrev pub nearby : Text → List NamedCandidate → List NamedCandidate
  nearby from_file pool =
      filter
        (λ c.
          candidate_shares_module is_alphanumeric index c
            (module_prefixes_for_file is_alphanumeric index from_file))
        pool

  pub pick_nearest : Text → List NamedCandidate → Option ResolvedRef
  unfolding candidate_shares_module module_prefixes_for_file
  pick_nearest from_file pool =
      elim (unique_candidate (filter (λ c. c.symbol.file_path == from_file) pool)) [
        | some only ↦ some (candidate only.symbol confidence_exact)
        | none ↦ chosen confidence_same_module (unique_candidate (nearby from_file pool))
      ]

  pub pick_scoped : Text → List Ranked → ℕ → Option ResolvedRef
  unfolding best_tier pick_nearest
  pick_scoped from_file in_scope total =
      let pool = best_tier in_scope in
      elim (unique_candidate pool) [
        | some only ↦ some (
            candidate only.symbol
              (if total == 1 then confidence_exact else confidence_import_resolved))
        | none ↦ pick_nearest from_file pool
      ]

  -- members of same-named types elsewhere: the one of the best tier, if all stand in its file
  pub pick_elsewhere : List Ranked → Option ResolvedRef
  unfolding best_tier
  pick_elsewhere members = elim (unique_candidate (best_tier members)) [
    | none ↦ none
    | some only ↦
        if all (λ m. m.1.symbol.file_path == only.symbol.file_path) members
        then some (candidate only.symbol confidence_exact)
        else none
  ]

  pub pick_unscoped : Text → List Ranked → Option ResolvedRef
  unfolding best_tier pick_elsewhere candidate_shares_module module_prefixes_for_file
  pick_unscoped from_file members = elim (unique_candidate members) [
    | some (_, only) ↦ some (candidate only.symbol confidence_exact)
    | none ↦
        let same_file = filter (λ m. m.1.symbol.file_path == from_file) members in
        let prefixes = module_prefixes_for_file is_alphanumeric index from_file in
        let near =
          filter (λ m. candidate_shares_module is_alphanumeric index m.1 prefixes) members in
        if not (is_empty same_file)
        then chosen confidence_exact (unique_candidate (best_tier same_file))
        else if not (is_empty near)
        then chosen confidence_same_module (unique_candidate (best_tier near))
        else pick_elsewhere members
  ]

  -- `trait_impls_of`: the LIKE pattern holds of every name that `impl_type_and_trait` reads
  pub trait_impls_of : Text → List (Text × NamedCandidate)
  unfolding by_qualified symbol_candidate_from_row named impl_type_and_trait
  trait_impls_of type_name =
      collect
        (λ s. elim (impl_type_and_trait s.qualified) [
          | none ↦ none
          | some (self_name, trait_name) ↦
              if self_name == type_name
              then some
                  (trait_name, named is_alphanumeric (symbol_candidate_from_row s) (codes "rust"))
              else none
        ])
        (by_qualified (filter (λ s. s.kind == codes "impl") index.symbols))

  -- the impl blocks that count for the target
  pub default_impls : MemberTarget → List ScopedModule → List (Text × NamedCandidate)
  unfolding trait_impls_of member_within_scope
  default_impls target scope =
      filter
        (λ i.
          (elim target.trait_name [ none ↦ true | some wanted ↦ wanted == i.0 ])
          && (is_empty scope || member_within_scope i.1 scope))
        (trait_impls_of target.type_name)

  pub declares : List (Text × NamedCandidate) → NamedCandidate → Bool
  unfolding parse
  declares impls c = elim (parse is_alphanumeric c.symbol.qualified) [
    | none ↦ false
    | some parsed ↦ not parsed.bracketed && any (λ i. i.0 == parsed.type_name) impls
  ]

  -- `impl_files.len() == 1`
  pub one_file : List (Text × NamedCandidate) → Bool
  one_file [] = false
  one_file (i ∷ impls) = all (λ other. other.1.symbol.file_path == i.1.symbol.file_path) impls

  pub resolve_trait_default : MemberTarget → List ScopedModule → Option ResolvedRef
  unfolding default_impls declares symbols_by_name one_file
  resolve_trait_default target scope =
      let impls = default_impls target scope in
      let declarations =
        filter (declares impls) (symbols_by_name is_alphanumeric index target.member) in
      if target.trait_object || is_empty impls || (is_empty scope && not (one_file impls))
      then none
      else chosen confidence_exact (unique_candidate declarations)

  pub pick : Text → List Ranked → List ScopedModule → Option ResolvedRef
  unfolding member_within_scope pick_unscoped pick_scoped
  pick from_file members scope =
      let in_scope = filter (λ m. member_within_scope m.1 scope) members in
      if is_empty scope
      then pick_unscoped from_file members
      else pick_scoped from_file in_scope (length members)

  -- `None` means that the ladder goes on
  unfoldable pub resolve_type_member :
      Text → List ImportCandidate → MemberTarget → Option ResolvedRef
  unfolding members_of type_scope pick resolve_trait_default
  resolve_type_member from_file imports target =
      let members = members_of target in
      let scope = type_scope from_file imports target in
      or_fuzzy (pick from_file members scope) (resolve_trait_default target scope)
        (is_empty members && is_empty scope && target.bracketed)
