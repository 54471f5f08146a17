-- ===== src/Impact/Run/Laws.antt =====
-- Laws of `run` and `traverse` of crates/orbit-graph/src/query/impact.rs.
use mathlib.Core.List.{Memᴰ}
use mathlib.Core.Logic.{⊎_elim}
use orbit_graph.Common.{
  ℕ, suc, ◌≤◌, ◌<◌, true, false, List, Option, none, some, Result, ok, err, ◌≡◌, refl, inl, inr,
  arith, length, All, is_empty, Option-cases, Bool-cases, not, ◌||◌, Result-cases, subst, sym, ap,
  ◌∙◌,
}
use orbit_graph.Common.Text.{Text}
use orbit_graph.Selector.{Selector}
use orbit_graph.Index.{Index}
use orbit_graph.Index.Values.{GraphError, RefConfidence, fuzzy_name}
use orbit_graph.Impact.Types.{
  ImpactDirection, ImpactSymbol, ImpactNeighbor, ImpactEntry, ImpactTraversal, ImpactFallback,
  ImpactResult,
}
use orbit_graph.Impact.Neighbors.{neighbors, is_fuzzy}
use orbit_graph.Impact.Resolve.{resolve_selector, resolve_neighbor_symbol}
use orbit_graph.Impact.Resolve.Rows.{
  HasPrimaryKey, IsRow, row_unique, resolve_neighbor_symbol-IsRow,
}
use orbit_graph.Impact.Bfs.{Search, locate, search, key_of}
use orbit_graph.Impact.Bfs.Bounds.{search_ends, search-le-cap}
use orbit_graph.Impact.Bfs.Levels.{Grows, distances, search-Grows}
use orbit_graph.Impact.Bfs.Sound.{Reaches, Touches, search-Touches}
use orbit_graph.Impact.Bfs.Complete.{HasUniqueIds, IsListed}
use orbit_graph.Impact.Bfs.Complete.Covers.{search_complete}
use orbit_graph.Impact.Run.{
  impact_node_cap, traverse, fallback_of, maybe_fuzzy_fallback, run_from, run, empty_result,
  result_of,
}
use orbit_graph.Impact.Run.Coherent.{
  IsCoherent, bind_ends, bind-eq-ok, ok-injective, fallback_of_lem, result_of-IsCoherent,
  empty_result-IsCoherent,
}

module _ (index : Index) (line_for : Text → ℕ → Option ℕ) where
  traverse_ends :
      (origin : ImpactSymbol) (max_depth : ℕ) (floor : RefConfidence) (direction : ImpactDirection)
      → (r : Result GraphError ImpactTraversal) × (traverse index line_for origin max_depth floor
            direction
          ≡ some r)
  unfolding traverse
  traverse_ends origin max_depth floor direction =
      let (r, e) =
        search_ends impact_node_cap max_depth (resolve_neighbor_symbol index) (locate line_for)
          (neighbors index floor direction) origin in
      elim (Result-cases r) [
        | inl (t, ok_t) ↦
            (ok (record { touched = t.touched; truncated = t.truncated }), rw (e, ok_t))
        | inr (er, err_r) ↦ (err er, rw (e, err_r))
      ]

  -- the search behind a traversal
  module _ (origin : ImpactSymbol) (max_depth : ℕ) (floor : RefConfidence)
      (direction : ImpactDirection) (t : ImpactTraversal)
      (h : traverse index line_for origin max_depth floor direction ≡ some (ok t)) where
    traverse-search :
        (s : Search) × (search impact_node_cap max_depth
            (resolve_neighbor_symbol index)
            (locate line_for)
            (neighbors index floor direction)
            origin
          ≡ some (ok s))
        × (s.touched ≡ t.touched)
        × (s.truncated ≡ t.truncated)
    unfolding traverse
    traverse-search =
        let (r, e) =
          search_ends impact_node_cap max_depth (resolve_neighbor_symbol index) (locate line_for)
            (neighbors index floor direction) origin in
        elim (Result-cases r) [
          | inl (s, ok_s) ↦ (s, rw (e, ok_s), ground arith, ground arith)
          | inr (er, err_r) ↦ absurd (ground arith)
        ]

    -- A traversal that returns lists at most 200 nodes, in the order of their distances, each
    -- distance at least one and at most max_depth.
    pub traverse_bounds :
        (length t.touched ≤ impact_node_cap)
        × Grows 1 (distances t.touched)
        × All (λ d. d ≤ max_depth) (distances t.touched)
    traverse_bounds =
        let (s, e, same, _) = traverse-search in
        let bound = (search-le-cap impact_node_cap max_depth _ _ _ origin s e).0 in
        let (grows, top) = search-Grows impact_node_cap max_depth _ _ _ origin s e in
        (
          subst (λ es. length es ≤ impact_node_cap) same bound,
          subst (λ es. Grows 1 (distances es)) same grows,
          subst (λ es. All (λ d. d ≤ max_depth) (distances es)) same top,
        )

    -- Each node that a traversal lists is the entry of a neighbour of a symbol that a chain of
    -- neighbours leads to from the origin, at a distance of one more than that chain's length.
    pub traverse-Touches :
        All
          (Touches
            (resolve_neighbor_symbol index)
            (locate line_for)
            (neighbors index floor direction)
            origin)
          t.touched
    traverse-Touches =
        let (s, e, same, _) = traverse-search in
        subst
          (All (
            Touches (resolve_neighbor_symbol index) (locate line_for)
              (neighbors index floor direction) origin))
          same (search-Touches impact_node_cap max_depth _ _ _ origin s e)

    -- In an index whose symbol rows have unique ids, with an origin that is a row, a traversal
    -- that returns with truncated false lists every neighbour of every symbol that a chain of
    -- fewer than max_depth neighbours leads to from the origin, at a distance of at most one
    -- more than the chain's length, or else that neighbour is the origin itself.
    pub traverse_complete :
        HasPrimaryKey index
        → IsRow index origin
        → t.truncated ≡ false
        → (d : ℕ) (x : ImpactSymbol) (ns : List ImpactNeighbor) (n : ImpactNeighbor)
        → Reaches (resolve_neighbor_symbol index) (neighbors index floor direction) origin d x
        → d < max_depth
        → neighbors index floor direction x ≡ ok ns
        → Memᴰ n ns
        → IsListed
            (resolve_neighbor_symbol index)
            (locate line_for)
            origin
            t.touched
            (key_of (resolve_neighbor_symbol index) n)
            (suc d)
    traverse_complete key row whole d x ns n reached room e among =
        let (s, found, same, cut) = traverse-search in
        let resolve = resolve_neighbor_symbol index in
        let unique : HasUniqueIds resolve origin = λ n m x y ex ey ids.
          row_unique index x y key (resolve_neighbor_symbol-IsRow index n x ex)
            (⊎_elim (resolve_neighbor_symbol-IsRow index m y) (λ o. subst (IsRow index) (sym o) row)
              ey)
            ids in
        subst (λ es. IsListed resolve (locate line_for) origin es (key_of resolve n) (suc d)) same
          (search_complete impact_node_cap max_depth resolve (locate line_for)
            (neighbors index floor direction) origin unique s found (cut ∙ whole) d x ns n reached
            room e among)

  maybe_fuzzy_fallback_ends :
      (origin : ImpactSymbol) (max_depth : ℕ) (floor : RefConfidence) (touched : List ImpactEntry)
      (direction : ImpactDirection)
      → (r : Result GraphError (Option ImpactFallback)) × (maybe_fuzzy_fallback index line_for
            origin max_depth floor touched direction
          ≡ some r)
  unfolding maybe_fuzzy_fallback
  maybe_fuzzy_fallback_ends origin max_depth floor touched direction =
      elim (Bool-cases (not (is_empty touched) || is_fuzzy floor)) [
        | inl e ↦ (ok none, rw e)
        | inr e ↦ rw e (
            bind_ends (traverse index line_for origin max_depth fuzzy_name direction) _
              (traverse_ends origin max_depth fuzzy_name direction)
              (λ f. (ok (fallback_of f floor), refl)))
      ]

  fallback_lem :
      (origin : ImpactSymbol) (max_depth : ℕ) (floor : RefConfidence) (touched : List ImpactEntry)
      (direction : ImpactDirection) (f : ImpactFallback)
      → maybe_fuzzy_fallback index line_for origin max_depth floor touched direction
        ≡ some (ok (some f))
      → (is_empty touched ≡ true)
        × (is_fuzzy floor ≡ false)
        × (is_empty f.touched ≡ false)
        × (f.visited_nodes ≡ length f.touched)
  unfolding maybe_fuzzy_fallback
  fallback_lem origin max_depth floor touched direction f h =
      elim (Bool-cases (not (is_empty touched) || is_fuzzy floor)) [
        | inl e ↦ absurd (cc (rw (e, maybe_fuzzy_fallback) at h))
        | inr e ↦
            let (t, _, end) =
              bind-eq-ok (traverse index line_for origin max_depth fuzzy_name direction) _
                (rw (e, maybe_fuzzy_fallback) at h) in
            fallback_of_lem t floor f touched e (ground arith)
      ]

  run_from_ends :
      (origin : ImpactSymbol) (max_depth : ℕ) (floor : RefConfidence) (direction : ImpactDirection)
      → (r : Result GraphError ImpactResult) × (run_from index line_for origin max_depth floor
            direction
          ≡ some r)
  unfolding run_from
  run_from_ends origin max_depth floor direction =
      bind_ends (traverse index line_for origin max_depth floor direction) _
        (traverse_ends origin max_depth floor direction)
        (λ t.
          bind_ends (maybe_fuzzy_fallback index line_for origin max_depth floor t.touched direction)
            _ (maybe_fuzzy_fallback_ends origin max_depth floor t.touched direction)
            (λ f. (ok _, refl)))

  -- For every index, line reader, selector, depth, floor and direction, `run` ends within its
  -- fuel, with a result or with an error.
  pub run_ends :
      (selector : Selector) (depth : ℕ) (floor : RefConfidence) (direction : ImpactDirection)
      → (r : Result GraphError ImpactResult) × (run index line_for selector depth floor direction
          ≡ some r)
  unfolding run
  run_ends selector depth floor direction = elim (Option-cases (resolve_selector index selector)) [
    | inl e ↦ (ok (empty_result direction), rw (e, run))
    | inr (origin, e) ↦ rw (e, run) (run_from_ends origin _ floor direction)
  ]

  run_from-IsCoherent :
      (origin : ImpactSymbol) (max_depth : ℕ) (floor : RefConfidence) (direction : ImpactDirection)
      (r : ImpactResult)
      → run_from index line_for origin max_depth floor direction ≡ some (ok r)
      → IsCoherent floor r
  unfolding run_from
  run_from-IsCoherent origin max_depth floor direction r h =
      let (t, _, later) =
        bind-eq-ok (traverse index line_for origin max_depth floor direction) _ h in
      let (fallback, second, end) =
        bind-eq-ok (maybe_fuzzy_fallback index line_for origin max_depth floor t.touched direction)
          _ later in
      let same : result_of direction t fallback ≡ r = ground arith in
      subst (IsCoherent floor) same (
        result_of-IsCoherent floor direction t fallback (λ f e.
          fallback_lem origin max_depth floor t.touched direction f
            (second ∙ ap (λ o. some (ok o)) e)))

  -- In a result that `run` returns, visited_nodes is the number of touched nodes; total is that
  -- number exactly where truncated is false; fallback_used says whether there is a fallback; a
  -- fallback is there only where no node was touched and the floor is not fuzzy_name, and it is
  -- not empty and counts its nodes.
  pub run-IsCoherent :
      (selector : Selector) (depth : ℕ) (floor : RefConfidence) (direction : ImpactDirection)
      (r : ImpactResult)
      → run index line_for selector depth floor direction ≡ some (ok r)
      → IsCoherent floor r
  unfolding run
  run-IsCoherent selector depth floor direction r h =
      elim (Option-cases (resolve_selector index selector)) [
        | inl e ↦
            let same : empty_result direction ≡ r = ok-injective (rw (e, run) at h) in
            subst (IsCoherent floor) same (empty_result-IsCoherent floor direction)
        | inr (origin, e) ↦ run_from-IsCoherent origin _ floor direction r (rw (e, run) at h)
      ]
