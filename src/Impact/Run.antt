-- ===== src/Impact/Run.antt =====
-- `run`, `traverse`, `maybe_fuzzy_fallback` and `empty_result` of
-- crates/orbit-graph/src/query/impact.rs.
pub mod Coherent
pub mod Laws
use orbit_graph.Common.{
  ℕ, zero, suc, Bool, true, false, not, ◌&&◌, ◌||◌, List, [], ◌∷◌, Option, none, some, Result, ok,
  err, if◌then◌else◌, is_empty, length, ◌==◌, nat_eq,
}
use orbit_graph.Common.Text.{Text, is_some}
use orbit_graph.Selector.{Selector}
use orbit_graph.Index.{Index}
use orbit_graph.Index.Values.{GraphError, RefConfidence, fuzzy_name}
use orbit_graph.Impact.Types.{
  ImpactDirection, ImpactSymbol, ImpactEntry, ImpactTraversal, ImpactFallback, ImpactResult,
}
use orbit_graph.Impact.Neighbors.{neighbors, is_fuzzy}
use orbit_graph.Impact.Resolve.{resolve_selector, resolve_neighbor_symbol}
use orbit_graph.Impact.Bfs.{Search, locate, search}

-- `IMPACT_NODE_CAP` and `DEFAULT_IMPACT_DEPTH` of crates/orbit-graph/src/lib.rs
abbrev pub impact_node_cap : ℕ
impact_node_cap = 200

abbrev pub default_impact_depth : ℕ
default_impact_depth = 3

-- A result, or an error, or none where the fuel ran out.
abbrev pub Outcome : Type 0 → Type 0
Outcome A = Option (Result GraphError A)

infixl 5 ◌>>=◌
abbrev pub ◌>>=◌ : {A B : Type 0} → Outcome A → (A → Outcome B) → Outcome B
none >>= f = none
some (err e) >>= f = some (err e)
some (ok a) >>= f = f a

abbrev pub returns : {A : Type 0} → A → Outcome A
returns a = some (ok a)

pub fallback_of : ImpactTraversal → RefConfidence → Option ImpactFallback
fallback_of fallback floor =
    if is_empty fallback.touched
    then none
    else some (record {
      confidence = fuzzy_name;
      touched = fallback.touched;
      truncated = fallback.truncated;
      visited_nodes = length fallback.touched;
      note = (floor, length fallback.touched);
    })

pub empty_result : ImpactDirection → ImpactResult
empty_result direction = record {
  direction = direction;
  touched = [];
  truncated = false;
  total = some 0;
  visited_nodes = 0;
  fallback_used = false;
  fallback = none;
}

unfoldable pub result_of : ImpactDirection → ImpactTraversal → Option ImpactFallback → ImpactResult
result_of direction traversal fallback = record {
  direction = direction;
  touched = traversal.touched;
  truncated = traversal.truncated;
  total = if traversal.truncated then none else some (length traversal.touched);
  visited_nodes = length traversal.touched;
  fallback_used = is_some fallback;
  fallback = fallback;
}

module _ (index : Index) (line_for : Text → ℕ → Option ℕ) where
  unfoldable pub traverse :
      ImpactSymbol → ℕ → RefConfidence → ImpactDirection → Outcome ImpactTraversal
  traverse origin max_depth floor direction = do
    found ←
        search impact_node_cap max_depth (resolve_neighbor_symbol index) (locate line_for)
          (neighbors index floor direction) origin
    returns (record { touched = found.touched; truncated = found.truncated })

  pub maybe_fuzzy_fallback :
      ImpactSymbol
      → ℕ
      → RefConfidence
      → List ImpactEntry
      → ImpactDirection
      → Outcome (Option ImpactFallback)
  unfolding traverse fallback_of
  maybe_fuzzy_fallback origin max_depth floor touched direction =
      let search_again : Outcome (Option ImpactFallback) = (do
        fallback ← traverse origin max_depth fuzzy_name direction
        returns (fallback_of fallback floor)) in
      if not (is_empty touched) || is_fuzzy floor then returns none else search_again

  pub run_from : ImpactSymbol → ℕ → RefConfidence → ImpactDirection → Outcome ImpactResult
  unfolding traverse maybe_fuzzy_fallback result_of
  run_from origin max_depth floor direction = do
    traversal ← traverse origin max_depth floor direction
    fallback ← maybe_fuzzy_fallback origin max_depth floor traversal.touched direction
    returns (result_of direction traversal fallback)

  unfoldable pub run : Selector → ℕ → RefConfidence → ImpactDirection → Outcome ImpactResult
  unfolding run_from empty_result
  run selector depth floor direction = elim (resolve_selector index selector) [
    | none ↦ returns (empty_result direction)
    | some origin ↦
        run_from origin (if depth == 0 then default_impact_depth else depth) floor direction
  ]
