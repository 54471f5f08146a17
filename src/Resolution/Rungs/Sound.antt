-- ===== src/Resolution/Rungs/Sound.antt =====
-- The candidates of the rungs of crates/orbit-graph/src/sync/pass2.rs.
use orbit_graph.Common.{
  ℕ, Bool, true, false, not, ◌&&◌, ◌||◌, List, [], ◌∷◌, Option, none, some, ◌≡◌, ◌≢◌, ◌∙◌, subst,
  inl, inr, ◌==◌, nat_eq, list_eq, option_eq, Option-cases, Bool-cases, All, All-filter, filter,
  is_empty, ltb, if◌then◌else◌, bind-eq-some,
}
use orbit_graph.Common.Text.{Text, codes, is_some, contains_text}
use orbit_graph.Index.{Index}
use orbit_graph.Resolution.Raw.{
  RawRef, SymbolCandidate, NamedCandidate, ImportCandidate, ImportResolution, unique, ambiguous,
  no_match,
}
use orbit_graph.Resolution.Members.{names_free_item}
use orbit_graph.Resolution.Candidates.{
  symbols_in_file_by_name, symbols_by_name, module_prefixes_for_file,
}
use orbit_graph.Resolution.Candidates.Defined.{
  IsNamed, symbols_in_file_by_name-IsNamed, symbols_by_name-IsNamed,
}
use orbit_graph.Resolution.Rungs.{
  unique_candidate, only_where, insert_match, resolution_of, or_else, exact_candidates,
  exact_qualified, exact_of, resolve_exact, unique_qualified_match, qualified_target,
  resolve_qualified, insert_matches, in_module, one_import, import_matches, resolve_import,
  import_module_for_ref, resolve_same_module, resolves_by_name_only,
}

pub All-unique_candidate {ℓ κ} :
    {A : Type ℓ} (P : A → Type κ) (xs : List A) (x : A)
    → All P xs
    → unique_candidate xs ≡ some x
    → P x
All-unique_candidate P [] x h e = absurd (cc)
All-unique_candidate P (y ∷ []) x h e = let same : y ≡ x = cc in subst P same h.0
All-unique_candidate P (y ∷ z ∷ ys) x h e = absurd (cc)

pub All-resolution_of {ℓ} :
    (P : SymbolCandidate → Type ℓ) (xs : List SymbolCandidate) (c : SymbolCandidate)
    → All P xs
    → resolution_of xs ≡ unique c
    → P c
All-resolution_of P [] c h e = absurd (cc)
All-resolution_of P (y ∷ []) c h e = let same : y ≡ c = cc in subst P same h.0
All-resolution_of P (y ∷ z ∷ ys) c h e = absurd (cc)

pub All-insert_match {ℓ} :
    (P : SymbolCandidate → Type ℓ) (s : SymbolCandidate) (ts : List SymbolCandidate)
    → P s
    → All P ts
    → All P (insert_match s ts)
unfolding insert_match
All-insert_match P s [] p h = (p, tt)
All-insert_match P s (t ∷ ts) p h = elim (Bool-cases (ltb s.id t.id)) [
  | inl e ↦ rw e (p, h)
  | inr e ↦ elim (Bool-cases (s.id == t.id)) [
    | inl f ↦ rw (e, f) (p, h.1)
    | inr f ↦ rw (e, f) (h.0, All-insert_match P s ts p h.1)
  ]
]

nothing : (d : SymbolCandidate) → none ≢ some d
nothing d f = absurd (cc)

pub only_where-All {ℓ} :
    (P : SymbolCandidate → Type ℓ) (passes : NamedCandidate → Bool)
    (matched : Option SymbolCandidate) (cs : List NamedCandidate) (c : SymbolCandidate)
    → All (λ n. P n.symbol) cs
    → ((d : SymbolCandidate) → matched ≡ some d → P d)
    → only_where passes matched cs ≡ some c
    → P c
unfolding only_where
only_where-All P passes matched [] c h first_one e = first_one c e
only_where-All P passes matched (n ∷ cs) c h first_one e = elim (Bool-cases (passes n)) [
  | inr skipped ↦ only_where-All P passes matched cs c h.1 first_one (rw (skipped, only_where) at e)
  | inl found ↦ elim (Bool-cases (is_some matched)) [
    | inl twice ↦ absurd (cc (rw (found, twice, only_where) at e))
    | inr once ↦
        only_where-All P passes (some n.symbol) cs c h.1 (λ d same. subst P (cc) h.0)
          (rw (found, once, only_where) at e)
  ]
]

module _ (is_alphanumeric : ℕ → Bool) (index : Index) where
  exact_candidates-IsNamed :
      (from_file : Text) (r : RawRef)
      → All (IsNamed index r.target_name) (exact_candidates is_alphanumeric index from_file r)
  unfolding exact_candidates
  exact_candidates-IsNamed from_file r =
      let candidates =
        symbols_in_file_by_name-IsNamed is_alphanumeric index from_file r.target_name in
      elim (Bool-cases (names_free_item is_alphanumeric from_file r)) [
        | inl e ↦
            rw (e, exact_candidates)
              (All-filter (IsNamed index r.target_name) _
                (symbols_in_file_by_name index from_file r.target_name) candidates)
        | inr e ↦ rw (e, exact_candidates) candidates
      ]

  exact_qualified-All {ℓ} :
      (P : SymbolCandidate → Type ℓ) (target : Option Text) (cs : List SymbolCandidate)
      (c : SymbolCandidate)
      → All P cs
      → exact_qualified is_alphanumeric index target cs ≡ some c
      → P c
  unfolding exact_qualified
  exact_qualified-All P none cs c h e = absurd (cc)
  exact_qualified-All P (some target) cs c h e =
      All-unique_candidate P (filter (λ d. d.qualified == target) cs) c (All-filter P _ cs h) e

  exact_of-All {ℓ} :
      (P : SymbolCandidate → Type ℓ) (target : Option Text) (cs : List SymbolCandidate)
      (enough : Bool) (c : SymbolCandidate)
      → All P cs
      → exact_of is_alphanumeric index target cs enough ≡ some c
      → P c
  unfolding exact_of
  exact_of-All P target cs enough c h e =
      elim (Option-cases (exact_qualified is_alphanumeric index target cs)) [
        | inr (d, f) ↦ exact_qualified-All P target cs c h (f ∙ (rw (f, exact_of) at e))
        | inl f ↦ elim (Bool-cases enough) [
          | inl g ↦ All-unique_candidate P cs c h (rw (f, g, exact_of) at e)
          | inr g ↦ absurd (cc (rw (f, g, exact_of) at e))
        ]
      ]

  pub resolve_exact-IsNamed :
      (from_file : Text) (r : RawRef) (c : SymbolCandidate)
      → resolve_exact is_alphanumeric index from_file r ≡ some c
      → IsNamed index r.target_name c
  unfolding resolve_exact
  resolve_exact-IsNamed from_file r c e =
      exact_of-All (IsNamed index r.target_name) r.target_qualified
        (exact_candidates is_alphanumeric index from_file r) _ c
        (exact_candidates-IsNamed from_file r) e

  pub unique_qualified_match-IsNamed :
      (language name target : Text) (c : SymbolCandidate)
      → unique_qualified_match is_alphanumeric index language name target ≡ some c
      → IsNamed index name c
  unfolding unique_qualified_match
  unique_qualified_match-IsNamed language name target c e =
      only_where-All (IsNamed index name) _ none (symbols_by_name is_alphanumeric index name) c
        (symbols_by_name-IsNamed is_alphanumeric index name) (λ d f. absurd (nothing d f)) e

  qualified_target-IsNamed :
      (language name target : Text) (c : SymbolCandidate)
      → qualified_target is_alphanumeric index language name target ≡ some c
      → IsNamed index name c
  unfolding qualified_target
  qualified_target-IsNamed language name target c e =
      elim (Bool-cases
        (not (contains_text (codes "::") target) && not (contains_text (codes ".") target))) [
          | inl f ↦ absurd (cc (rw (f, qualified_target) at e))
          | inr f ↦ unique_qualified_match-IsNamed language name _ c (rw (f, qualified_target) at e)
        ]

  pub resolve_qualified-IsNamed :
      (language : Text) (r : RawRef) (c : SymbolCandidate)
      → resolve_qualified is_alphanumeric index language r ≡ some c
      → IsNamed index r.target_name c
  unfolding resolve_qualified
  resolve_qualified-IsNamed language r c e = elim (Bool-cases (r.kind == codes "use")) [
    | inl f ↦ absurd (cc (rw (f, resolve_qualified) at e))
    | inr f ↦
        let (target, _, found) =
          bind-eq-some r.target_qualified
            (qualified_target is_alphanumeric index language r.target_name)
            (rw (f, resolve_qualified) at e) in
        qualified_target-IsNamed language r.target_name target c found
  ]

  insert_matches-All {ℓ} :
      (P : SymbolCandidate → Type ℓ) (passes : NamedCandidate → Bool) (cs : List NamedCandidate)
      (found : List SymbolCandidate)
      → All (λ c. P c.symbol) cs
      → All P found
      → All P (insert_matches is_alphanumeric index passes cs found)
  unfolding insert_matches
  insert_matches-All P passes [] found h g = g
  insert_matches-All P passes (c ∷ cs) found h g = elim (Bool-cases (passes c)) [
    | inl e ↦
        rw (e, insert_matches)
          (insert_matches-All P passes cs (insert_match c.symbol found) h.1
            (All-insert_match P c.symbol found h.0 g))
    | inr e ↦ rw (e, insert_matches) (insert_matches-All P passes cs found h.1 g)
  ]

  in_module-IsNamed :
      (language : Text) (free_item : Bool) (inside : Option Text) (name : Text)
      (found : List SymbolCandidate)
      → All (IsNamed index name) found
      → All
          (IsNamed index name)
          (in_module is_alphanumeric index language free_item inside name found)
  unfolding in_module
  in_module-IsNamed language free_item none name found h = h
  in_module-IsNamed language free_item (some path) name found h =
      insert_matches-All (IsNamed index name) _ (symbols_by_name is_alphanumeric index name) found
        (symbols_by_name-IsNamed is_alphanumeric index name) h

  one_import-IsNamed :
      (from_file language : Text) (free_item explicit : Bool) (i : ImportCandidate) (r : RawRef)
      (found : List SymbolCandidate)
      → All (IsNamed index r.target_name) found
      → All
          (IsNamed index r.target_name)
          (one_import is_alphanumeric index from_file language free_item explicit i r found)
  unfolding one_import
  one_import-IsNamed from_file language free_item explicit i r found h =
      let named = i.target_symbol == some r.target_name in
      elim (Bool-cases (if explicit then not named else named)) [
        | inl e ↦ rw (e, one_import) h
        | inr e ↦
            rw (e, one_import)
              (in_module-IsNamed language free_item (import_module_for_ref from_file i r)
                r.target_name found h)
      ]

  import_matches-IsNamed :
      (from_file language : Text) (free_item explicit : Bool) (imports : List ImportCandidate)
      (r : RawRef) (found : List SymbolCandidate)
      → All (IsNamed index r.target_name) found
      → All (IsNamed index r.target_name) (
          import_matches is_alphanumeric index from_file language free_item explicit imports r
            found)
  unfolding import_matches
  import_matches-IsNamed from_file language free_item explicit [] r found h = h
  import_matches-IsNamed from_file language free_item explicit (i ∷ imports) r found h =
      import_matches-IsNamed from_file language free_item explicit imports r
        (one_import is_alphanumeric index from_file language free_item explicit i r found)
        (one_import-IsNamed from_file language free_item explicit i r found h)

  or_else-All {ℓ} :
      (P : SymbolCandidate → Type ℓ) (first_round second_round : ImportResolution)
      (c : SymbolCandidate)
      → (first_round ≡ unique c → P c)
      → (second_round ≡ unique c → P c)
      → or_else first_round second_round ≡ unique c
      → P c
  or_else-All P (unique d) second_round c f g e = f e
  or_else-All P ambiguous second_round c f g e = absurd (cc)
  or_else-All P no_match second_round c f g e = g e

  pub resolve_import-IsNamed :
      (from_file language : Text) (imports : List ImportCandidate) (r : RawRef)
      (c : SymbolCandidate)
      → resolve_import is_alphanumeric index from_file language imports r ≡ unique c
      → IsNamed index r.target_name c
  unfolding resolve_import
  resolve_import-IsNamed from_file language imports r c e =
      let free = names_free_item is_alphanumeric from_file r in
      or_else-All (IsNamed index r.target_name) _ _ c
        (All-resolution_of (IsNamed index r.target_name) _ c
          (import_matches-IsNamed from_file language free true imports r [] tt))
        (All-resolution_of (IsNamed index r.target_name) _ c
          (import_matches-IsNamed from_file language free false imports r [] tt))
        e

  pub resolve_same_module-IsNamed :
      (from_file language : Text) (r : RawRef) (c : SymbolCandidate)
      → resolve_same_module is_alphanumeric index from_file language r ≡ some c
      → IsNamed index r.target_name c
  unfolding resolve_same_module
  resolve_same_module-IsNamed from_file language r c e =
      elim (Bool-cases (
        not (resolves_by_name_only r)
        || is_empty (module_prefixes_for_file is_alphanumeric index from_file))) [
          | inl f ↦ absurd (cc (rw (f, resolve_same_module) at e))
          | inr f ↦
              only_where-All (IsNamed index r.target_name) _ none
                (symbols_by_name is_alphanumeric index r.target_name) c
                (symbols_by_name-IsNamed is_alphanumeric index r.target_name)
                (λ d g. absurd (nothing d g)) (rw (f, resolve_same_module) at e)
        ]
