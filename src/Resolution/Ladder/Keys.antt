-- ===== src/Resolution/Ladder/Keys.antt =====
-- `RefKey` and the memo of `resolve_file` of crates/orbit-graph/src/sync/pass2.rs.
use orbit_graph.Common.{
  ℕ, Bool, true, false, ◌&&◌, List, [], ◌∷◌, Option, some, ok, ◌≡◌, ◌≢◌, refl, sym, ap, ◌∙◌, map,
  inl, inr, arith, ◌==◌, eq_iff, nat_eq, list_eq, option_eq, Option-cases, Bool-cases, and_split,
  not_injective,
}
use orbit_graph.Common.Text.{Text, codes, is_some}
use orbit_graph.Index.{Index}
use orbit_graph.Resolution.Raw.{
  RawRef, SymbolCandidate, ImportCandidate, ResolvedRef, runtime_invocation_kind,
}
use orbit_graph.Resolution.Members.{of_ref, names_free_item, call_module_qualifier}
use orbit_graph.Resolution.Candidates.{file_language, imports_for_file}
use orbit_graph.Resolution.Rungs.{
  resolves_by_name_only, resolve_exact, resolve_import, resolve_qualified, resolve_same_module,
  import_module_for_ref, one_import, import_matches, exact_candidates,
}
use orbit_graph.Resolution.Reexports.{resolve_reexport}
use orbit_graph.Resolution.TypeMembers.{PackageIdentity}
use orbit_graph.Resolution.Ladder.{
  RefKey, key_of, key_beq, bool_beq, known, type_member_rung, lower_rungs, resolve_ref,
  resolve_refs, resolve_file,
}

-- Two refs with one key.
module _ (is_alphanumeric : ℕ → Bool) (index : Index) (package_of : Text → Option PackageIdentity)
    (a b : RawRef) (h : key_of a ≡ key_of b) where
  same_runtime : (a.kind == runtime_invocation_kind) ≡ (b.kind == runtime_invocation_kind)
  unfolding key_of
  same_runtime = ap (λ k. k.is_runtime_invocation) h

  same_use : (a.kind == codes "use") ≡ (b.kind == codes "use")
  unfolding key_of
  same_use = ap (λ k. k.is_use) h

  same_spelled : a.spelled_path ≡ b.spelled_path
  unfolding key_of
  same_spelled = ap (λ k. k.spelled_path) h

  same_name : a.target_name ≡ b.target_name
  unfolding key_of
  same_name = ap (λ k. k.target_name) h

  same_target : a.target_qualified ≡ b.target_qualified
  unfolding key_of
  same_target = ap (λ k. k.target_qualified) h

  same_name_only : resolves_by_name_only a ≡ resolves_by_name_only b
  unfolding key_of
  same_name_only = ap (λ k. k.name_only) h

  same_receiver : is_some a.unresolved_receiver ≡ is_some b.unresolved_receiver
  unfolding resolves_by_name_only
  same_receiver = not_injective _ _ same_name_only

  of_ref-same :
      (from_file : Text) → of_ref is_alphanumeric from_file a ≡ of_ref is_alphanumeric from_file b
  unfolding of_ref
  of_ref-same from_file = rw (same_use, same_name, same_target) refl

  names_free_item-same :
      (from_file : Text)
      → names_free_item is_alphanumeric from_file a ≡ names_free_item is_alphanumeric from_file b
  unfolding names_free_item
  names_free_item-same from_file = rw (same_use, same_receiver, same_target) refl

  call_module_qualifier-same :
      (from_file : Text)
      → call_module_qualifier is_alphanumeric from_file a
        ≡ call_module_qualifier is_alphanumeric from_file b
  unfolding call_module_qualifier
  call_module_qualifier-same from_file =
      rw (same_spelled, names_free_item-same from_file, same_target) refl

  exact_candidates-same :
      (from_file : Text)
      → exact_candidates is_alphanumeric index from_file a
        ≡ exact_candidates is_alphanumeric index from_file b
  unfolding exact_candidates
  exact_candidates-same from_file = rw (names_free_item-same from_file, same_name) refl

  resolve_exact-same :
      (from_file : Text)
      → resolve_exact is_alphanumeric index from_file a
        ≡ resolve_exact is_alphanumeric index from_file b
  unfolding resolve_exact
  resolve_exact-same from_file =
      let candidates = exact_candidates-same from_file in
      let qualifier = call_module_qualifier-same from_file in
      let name_only = same_name_only in let target = same_target in cc

  resolve_qualified-same :
      (language : Text)
      → resolve_qualified is_alphanumeric index language a
        ≡ resolve_qualified is_alphanumeric index language b
  unfolding resolve_qualified
  resolve_qualified-same language = rw (same_use, same_target, same_name) refl

  import_module_for_ref-same :
      (from_file : Text) (i : ImportCandidate)
      → import_module_for_ref from_file i a ≡ import_module_for_ref from_file i b
  unfolding import_module_for_ref
  import_module_for_ref-same from_file i = rw (same_name, same_target) refl

  one_import-same :
      (from_file language : Text) (free_item explicit : Bool) (i : ImportCandidate)
      (found : List SymbolCandidate)
      → one_import is_alphanumeric index from_file language free_item explicit i a found
        ≡ one_import is_alphanumeric index from_file language free_item explicit i b found
  unfolding one_import
  one_import-same from_file language free_item explicit i found =
      let modules = import_module_for_ref-same from_file i in let name = same_name in cc

  import_matches-same :
      (from_file language : Text) (free_item explicit : Bool) (imports : List ImportCandidate)
      (found : List SymbolCandidate)
      → import_matches is_alphanumeric index from_file language free_item explicit imports a found
        ≡ import_matches is_alphanumeric index from_file language free_item explicit imports b found
  unfolding import_matches
  import_matches-same from_file language free_item explicit [] found = refl
  import_matches-same from_file language free_item explicit (i ∷ imports) found =
      ap (import_matches is_alphanumeric index from_file language free_item explicit imports a)
        (one_import-same from_file language free_item explicit i found)
      ∙ import_matches-same from_file language free_item explicit imports
          (one_import is_alphanumeric index from_file language free_item explicit i b found)

  resolve_import-same :
      (from_file language : Text) (imports : List ImportCandidate)
      → resolve_import is_alphanumeric index from_file language imports a
        ≡ resolve_import is_alphanumeric index from_file language imports b
  unfolding resolve_import
  resolve_import-same from_file language imports =
      let free = names_free_item is_alphanumeric from_file b in
      let free_item = names_free_item-same from_file in
      let explicit = import_matches-same from_file language free true imports [] in
      let other = import_matches-same from_file language free false imports [] in cc

  resolve_same_module-same :
      (from_file language : Text)
      → resolve_same_module is_alphanumeric index from_file language a
        ≡ resolve_same_module is_alphanumeric index from_file language b
  unfolding resolve_same_module
  resolve_same_module-same from_file language =
      let free_item = names_free_item-same from_file in
      let qualifier = call_module_qualifier-same from_file in
      let name_only = same_name_only in let name = same_name in cc

  resolve_reexport-same :
      (from_file : Text)
      → resolve_reexport is_alphanumeric index from_file a
        ≡ resolve_reexport is_alphanumeric index from_file b
  unfolding resolve_reexport
  resolve_reexport-same from_file = rw same_target refl

  lower_rungs-same :
      (from_file language : Text)
      → lower_rungs is_alphanumeric index package_of from_file language a
        ≡ lower_rungs is_alphanumeric index package_of from_file language b
  unfolding lower_rungs
  lower_rungs-same from_file language =
      let inside = resolve_same_module-same from_file language in
      let reexport = resolve_reexport-same from_file in
      let spelled = same_spelled in let target = same_target in cc

  type_member_rung-same :
      (from_file : Text) (imports : List ImportCandidate)
      → type_member_rung is_alphanumeric index package_of from_file imports a
        ≡ type_member_rung is_alphanumeric index package_of from_file imports b
  unfolding type_member_rung
  type_member_rung-same from_file imports = let target = of_ref-same from_file in cc

  -- Two refs with one key resolve alike in the same file, language and imports: a key holds all
  -- that the ladder reads of a ref.
  pub resolve_ref-key_of :
      (from_file language : Text) (imports : List ImportCandidate)
      → resolve_ref is_alphanumeric index package_of from_file language imports a
        ≡ resolve_ref is_alphanumeric index package_of from_file language imports b
  unfolding resolve_ref
  resolve_ref-key_of from_file language imports =
      let runtime = same_runtime in
      let members = type_member_rung-same from_file imports in
      let own_file = resolve_exact-same from_file in
      let imported = resolve_import-same from_file language imports in
      let qualified = resolve_qualified-same language in
      let lower = lower_rungs-same from_file language in cc

bool_beq_sound : (a b : Bool) → bool_beq a b ≡ true → a ≡ b
bool_beq_sound true b h = sym h
bool_beq_sound false true h = h
bool_beq_sound false false h = refl

all_of_six :
    (a b c d e f : Bool)
    → (a && b && c && d && e && f) ≡ true
    → (a ≡ true) × (b ≡ true) × (c ≡ true) × (d ≡ true) × (e ≡ true) × (f ≡ true)
all_of_six a b c d e f h =
    let (h1, hf) = and_split (a && b && c && d && e) f h in
    let (h2, he) = and_split (a && b && c && d) e h1 in
    let (h3, hd) = and_split (a && b && c) d h2 in
    let (h4, hc) = and_split (a && b) c h3 in
    let (ha, hb) = and_split a b h4 in (ha, hb, hc, hd, he, hf)

key_beq_sound : (k l : RefKey) → key_beq k l ≡ true → k ≡ l
unfolding key_beq
key_beq_sound k l h =
    let (runtime, use_kind, name_only, spelled, name, target) =
      all_of_six (bool_beq k.is_runtime_invocation l.is_runtime_invocation)
        (bool_beq k.is_use l.is_use) (bool_beq k.name_only l.name_only)
        (bool_beq k.spelled_path l.spelled_path) (k.target_name == l.target_name)
        (k.target_qualified == l.target_qualified) h in
    λ i. record {
      is_runtime_invocation =
          bool_beq_sound k.is_runtime_invocation l.is_runtime_invocation runtime i;
      is_use = bool_beq_sound k.is_use l.is_use use_kind i;
      name_only = bool_beq_sound k.name_only l.name_only name_only i;
      spelled_path = bool_beq_sound k.spelled_path l.spelled_path spelled i;
      target_name = (eq_iff k.target_name l.target_name).0 name i;
      target_qualified = (eq_iff k.target_qualified l.target_qualified).0 target i;
    }

module _ (is_alphanumeric : ℕ → Bool) (index : Index) (package_of : Text → Option PackageIdentity)
    (from_file language : Text) (imports : List ImportCandidate) where
  abbrev resolved : RawRef → ResolvedRef
  resolved = resolve_ref is_alphanumeric index package_of from_file language imports

  -- A memo that holds for a key what each ref with that key resolves to.
  abbrev IsMemo : List (RefKey × ResolvedRef) → Type 0
  IsMemo memo =
      (r : RawRef) (result : ResolvedRef)
      → known memo (key_of r) ≡ some result
      → resolved r ≡ result

  IsMemo-add :
      (raw_ref : RawRef) (memo : List (RefKey × ResolvedRef))
      → IsMemo memo
      → IsMemo ((key_of raw_ref, resolved raw_ref) ∷ memo)
  unfolding known
  IsMemo-add raw_ref memo holds r result h =
      elim (Bool-cases (key_beq (key_of raw_ref) (key_of r))) [
        | inl e ↦
            let same : resolved raw_ref ≡ result = ground arith in
            resolve_ref-key_of is_alphanumeric index package_of r raw_ref
              (sym (key_beq_sound (key_of raw_ref) (key_of r) e)) from_file language imports
            ∙ same
        | inr e ↦ holds r result (rw (e, known) at h)
      ]

  resolve_refs-eq :
      (memo : List (RefKey × ResolvedRef)) (raw_refs : List RawRef)
      → IsMemo memo
      → resolve_refs is_alphanumeric index package_of from_file language imports memo raw_refs
        ≡ map resolved raw_refs
  unfolding resolve_refs
  resolve_refs-eq memo [] holds = refl
  resolve_refs-eq memo (r ∷ raw_refs) holds = elim (Option-cases (known memo (key_of r))) [
    | inl e ↦
        rw (e, resolve_refs)
          (ap (λ rest. resolved r ∷ rest)
            (resolve_refs-eq ((key_of r, resolved r) ∷ memo) raw_refs (IsMemo-add r memo holds)))
    | inr (result, e) ↦
        rw (e, resolve_refs, holds r result e)
          (ap (λ rest. result ∷ rest) (resolve_refs-eq memo raw_refs holds))
  ]

module _ (is_alphanumeric : ℕ → Bool) (index : Index)
    (package_of : Text → Option PackageIdentity) where
  -- For a file that the index has, `resolve_file`, which resolves each key once and takes later
  -- refs from its memo, gives what resolving every ref by itself with the file's language and
  -- imports gives, in the order of the refs.
  pub resolve_file-eq-map :
      (from_file language : Text) (raw_refs : List RawRef)
      → file_language index from_file ≡ some language
      → resolve_file is_alphanumeric index package_of from_file raw_refs
        ≡ ok (
            map
              (resolve_ref is_alphanumeric index package_of from_file language
                (imports_for_file index from_file))
              raw_refs)
  unfolding resolve_file
  resolve_file-eq-map from_file language raw_refs h =
      rw (h, resolve_file)
        (ap ok (
          resolve_refs-eq is_alphanumeric index package_of from_file language
            (imports_for_file index from_file) [] raw_refs
            (λ r result e. absurd (nothing_known (key_of r) result e))))
    where
      nothing_known : (key : RefKey) (result : ResolvedRef) → known [] key ≢ some result
      nothing_known key result e = absurd (cc)
