-- ===== src/Queries/Trace/Results.antt =====
-- The result of `run` in crates/orbit-graph/src/query/trace.rs.
use mathlib.Core.Option
use orbit_graph.Common.{
  ℕ, true, false, not, none, some, Result, ok, err, ◌≡◌, refl, sym, ap, ◌∙◌, subst, length, ◌≤◌,
  inl, inr, Option-cases, Result-cases, if◌then◌else◌,
}
use orbit_graph.Common.Text.{Text}
use orbit_graph.Index.{Index}
use orbit_graph.Index.Values.{GraphError, RefConfidence}
use orbit_graph.Queries.Trace.{
  TraceResult, trace, conclude, empty_trace, callees_of, child_symbol, max_depth_of,
  resolve_command_handler, normalize_command_selector, trace_node_cap,
}
use orbit_graph.Queries.Trace.Arena.{TraceNode, build_tree}
use orbit_graph.Queries.Trace.Search.{TraceSymbol, Tracing, search_tree, start_trace}
use orbit_graph.Queries.Trace.Count.{size}
use orbit_graph.Queries.Trace.Outcome.{Ends}
use orbit_graph.Queries.Trace.Laws.{
  IsSound-tree, trace_result-some, whole_tree, search_ends, search_tree-tree,
}

-- what the result says of its tree
pub record Describes (tree : TraceNode) (r : TraceResult) : Type 0 where
  pub root : r.root ≡ some tree
  pub visited : r.visited_nodes ≡ size tree
  pub capped : r.visited_nodes ≤ trace_node_cap
  pub whole : r.truncated ≡ false → r.total ≡ some (size tree)
  pub cut : r.truncated ≡ true → (r.visited_nodes ≡ trace_node_cap) × (r.total ≡ none)

module _ (index : Index) (command : Text) (depth : ℕ) (floor : RefConfidence) where
  trace-unknown :
      resolve_command_handler index (normalize_command_selector command) ≡ none
      → trace index command depth floor ≡ some (ok empty_trace)
  unfolding trace
  trace-unknown e = rw (e, trace) refl

  module _ (origin : TraceSymbol)
      (known : resolve_command_handler index (normalize_command_selector command)
        ≡ some origin) where
    trace-known :
        trace index command depth floor
        ≡ conclude (
            search_tree trace_node_cap
              (max_depth_of depth)
              floor
              (callees_of index)
              (child_symbol index)
              origin)
    unfolding trace
    trace-known = rw (known, trace) refl

    abbrev ended :
        Ends trace_node_cap
          (max_depth_of depth)
          floor
          (callees_of index)
          (child_symbol index)
          (start_trace origin)
          (search_tree trace_node_cap
            (max_depth_of depth)
            floor
            (callees_of index)
            (child_symbol index)
            origin)
    ended = search_ends (max_depth_of depth) floor (callees_of index) (child_symbol index) origin

    trace-outcome : trace index command depth floor ≡ conclude (some ended.outcome)
    trace-outcome = trace-known ∙ ap conclude ended.ended

    conclude-ok :
        (u : Tracing) (tree : TraceNode)
        → build_tree u.arena trace_node_cap 0 ≡ some tree
        → conclude (some (ok u))
          ≡ some (
              ok (record {
                root = some tree;
                truncated = u.truncated;
                visited_nodes = length u.arena;
                total = if not u.truncated then some (length u.arena) else none;
              }))
    unfolding conclude Option.bind
    conclude-ok u tree built = rw (trace_result-some u tree built) refl

    record Found (r : TraceResult) : Type 0 where
      tree : TraceNode
      returned : trace index command depth floor ≡ some (ok r)
      describes : Describes tree r
      grown : r.truncated ≡ false → tree ≡ whole_tree index depth floor origin

    found : (u : Tracing) → ended.outcome ≡ ok u → (r : TraceResult) × Found r
    found u e =
        let (k, done) = ended.kept u e in
        let (tree, built, counted) = IsSound-tree trace_node_cap u k.sound in
        (
          record {
            root = some tree;
            truncated = u.truncated;
            visited_nodes = length u.arena;
            total = if not u.truncated then some (length u.arena) else none;
          },
          record {
            tree = tree;
            returned = trace-outcome ∙ (λ i. conclude (some (e i))) ∙ conclude-ok u tree built;
            describes = record {
              root = refl;
              visited = sym counted;
              capped = k.sound.fits;
              whole = λ whole i. if not (whole i) then some (sym counted i) else none;
              cut = λ cut. (k.full refl cut, rw cut refl);
            };
            grown = λ whole.
                search_tree-tree (max_depth_of depth) floor (callees_of index) (child_symbol index)
                  origin u tree e whole built;
          },
        )

    returned : (r : Result GraphError TraceResult) × (trace index command depth floor ≡ some r)
    unfolding conclude
    returned = elim (Result-cases ended.outcome) [
      | inr (failure, e) ↦ (err failure, trace-outcome ∙ (λ i. conclude (some (e i))))
      | inl (u, e) ↦ let (r, f) = found u e in (ok r, f.returned)
    ]

    returned-Found : (r : TraceResult) → trace index command depth floor ≡ some (ok r) → Found r
    unfolding conclude
    returned-Found r h = elim (Result-cases ended.outcome) [
      | inr (failure, e) ↦ absurd (cc (h, trace-outcome ∙ (λ i. conclude (some (e i)))))
      | inl (u, e) ↦
          let (s, f) = found u e in let same : s ≡ r = cc (h, f.returned) in subst Found same f
    ]

    -- For a command that has a handler, a trace that returns has a root, visited_nodes is the
    -- number of nodes of its tree and at most 200; total is that number where truncated is
    -- false; and where truncated is true, visited_nodes is 200 and total is none.
    pub trace-Describes :
        (r : TraceResult)
        → trace index command depth floor ≡ some (ok r)
        → (tree : TraceNode) × Describes tree r
    trace-Describes r h = let f = returned-Found r h in (f.tree, f.describes)

    -- For a command that has a handler, a trace that returns with truncated false has as its
    -- root the tree that recursion on the depth gives: the handler, and below each symbol its
    -- calls at the floor or above, in the order of the edges, each with the calls of the symbol
    -- that it resolves to, down to max_depth levels.
    pub trace-whole_tree :
        (r : TraceResult)
        → trace index command depth floor ≡ some (ok r)
        → r.truncated ≡ false
        → r.root ≡ some (whole_tree index depth floor origin)
    trace-whole_tree r h whole =
        let f = returned-Found r h in f.describes.root ∙ ap some (f.grown whole)

  -- For every index, command, depth and floor, `trace` ends within its fuel with a result or
  -- with an error, and `build_tree` meets no index outside the arena.
  pub trace_ends : (r : Result GraphError TraceResult) × (trace index command depth floor ≡ some r)
  trace_ends =
      elim (Option-cases (resolve_command_handler index (normalize_command_selector command))) [
        | inl e ↦ (ok empty_trace, trace-unknown e)
        | inr (origin, e) ↦ returned origin e
      ]
