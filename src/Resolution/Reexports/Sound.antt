-- ===== src/Resolution/Reexports/Sound.antt =====
-- The candidates of `resolve_reexport` (crates/orbit-graph/src/sync/pass2.rs).
use mathlib.Core.List.{reverse}
use orbit_graph.Common.{
  ℕ, zero, suc, Bool, List, [], ◌∷◌, ◌++◌, Option, none, some, ◌≡◌, refl, inl, inr, ◌==◌, nat_eq,
  list_eq, Option-cases, Bool-cases, All,
}
use orbit_graph.Common.Text.{Text, codes, contains_text}
use orbit_graph.Index.{Index}
use orbit_graph.Resolution.Raw.{RawRef, SymbolCandidate, ReexportCandidate, unique}
use orbit_graph.Resolution.Names.{resolve_import_path}
use orbit_graph.Resolution.Members.{last_segment}
use orbit_graph.Resolution.Candidates.{reexport_rows}
use orbit_graph.Resolution.Candidates.Defined.{IsDefined}
use orbit_graph.Resolution.Rungs.{unique_qualified_match}
use orbit_graph.Resolution.Rungs.Sound.{
  All-resolution_of, All-insert_match, unique_qualified_match-IsNamed,
}
use orbit_graph.Resolution.Reexports.{
  next_unvisited, pushed, add_match, walk, reexported, resolve_reexport,
}

module _ (is_alphanumeric : ℕ → Bool) (index : Index) where
  add_match-IsDefined :
      (initial path : Text) (matches : List SymbolCandidate)
      → All (IsDefined index) matches
      → All (IsDefined index) (add_match is_alphanumeric index initial path matches)
  unfolding add_match
  add_match-IsDefined initial path matches h = elim (Bool-cases (path == initial)) [
    | inl e ↦ rw (e, add_match) h
    | inr e ↦
        elim (Option-cases
          (unique_qualified_match is_alphanumeric index (codes "rust") (last_segment path) path)) [
            | inl f ↦ rw (e, f, add_match) h
            | inr (c, f) ↦
                rw (e, f, add_match)
                  (All-insert_match (IsDefined index) c matches
                    (unique_qualified_match-IsNamed is_alphanumeric index (codes "rust")
                      (last_segment path) path c f).0
                    h)
          ]
  ]

  walk-IsDefined :
      (initial : Text) (rows : List ReexportCandidate) (room : ℕ) (visited : List Text)
      (matches : List SymbolCandidate) (pending : List Text) (c : SymbolCandidate)
      → All (IsDefined index) matches
      → walk is_alphanumeric index initial rows room visited matches pending ≡ unique c
      → IsDefined index c
  unfolding walk
  walk-IsDefined initial rows zero visited matches pending c h e =
      elim (Option-cases (next_unvisited visited pending)) [
        | inl f ↦ All-resolution_of (IsDefined index) matches c h (rw (f, walk) at e)
        | inr (next, f) ↦ absurd (cc (rw (f, walk) at e))
      ]
  walk-IsDefined initial rows (suc room) visited matches pending c h e =
      elim (Option-cases (next_unvisited visited pending)) [
        | inl f ↦ All-resolution_of (IsDefined index) matches c h (rw (f, walk) at e)
        | inr ((path, rest), f) ↦
            walk-IsDefined initial rows room (path ∷ visited)
              (add_match is_alphanumeric index initial path matches)
              (reverse (pushed rows path) ++ rest) c (add_match-IsDefined initial path matches h)
              (rw (f, walk) at e)
      ]

  reexported-IsDefined :
      (initial : Text) (c : SymbolCandidate)
      → reexported is_alphanumeric index initial ≡ unique c
      → IsDefined index c
  unfolding reexported
  reexported-IsDefined initial c e = elim (Bool-cases (contains_text (codes "::") initial)) [
    | inl f ↦
        walk-IsDefined initial (reexport_rows index) 64 [] [] (initial ∷ []) c tt
          (rw (f, reexported) at e)
    | inr f ↦ absurd (cc (rw (f, reexported) at e))
  ]

  spelled-IsDefined :
      (from_file : Text) (target : Option Text) (c : SymbolCandidate) (r : RawRef)
      → r.target_qualified ≡ target
      → resolve_reexport is_alphanumeric index from_file r ≡ unique c
      → IsDefined index c
  unfolding resolve_reexport
  spelled-IsDefined from_file none c r f e = absurd (cc (rw (f, resolve_reexport) at e))
  spelled-IsDefined from_file (some spelled) c r f e =
      reexported-IsDefined (resolve_import_path from_file spelled) c (rw (f, resolve_reexport) at e)

  pub resolve_reexport-IsDefined :
      (from_file : Text) (r : RawRef) (c : SymbolCandidate)
      → resolve_reexport is_alphanumeric index from_file r ≡ unique c
      → IsDefined index c
  resolve_reexport-IsDefined from_file r c e =
      spelled-IsDefined from_file r.target_qualified c r refl e
