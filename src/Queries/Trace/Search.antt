-- ===== src/Queries/Trace/Search.antt =====
-- The loop of `run` in crates/orbit-graph/src/query/trace.rs, over what it calls: `edges` for
-- `callees::edges_for_symbol` and `target` for `resolve_symbol` of the edge.
use orbit_graph.Common.{
  ℕ, zero, suc, Bool, true, false, Option, none, some, List, [], ◌∷◌, ◌++◌, Result, ok, err, length,
  ltb, leb, if◌then◌else◌,
}
use orbit_graph.Common.Text.{Text}
use orbit_graph.Index.{RefRow}
use orbit_graph.Index.Values.{GraphError, RefConfidence}
use orbit_graph.Impact.Neighbors.{confidence_visible_at_floor}
use orbit_graph.Queries.Trace.Arena.{TraceNodeBuilder, push_child}

pub record TraceSymbol : Type 0 where
  pub file_path : Text
  pub name : Text
  pub qualified : Text
  pub span_start : ℕ
  pub span_end : ℕ

-- The variables of the loop.
pub record Tracing : Type 0 where
  pub arena : List TraceNodeBuilder
  pub queue : List (ℕ × TraceSymbol × ℕ)
  pub truncated : Bool

-- `TraceNodeBuilder::root` and `TraceNodeBuilder::callee`
abbrev pub root_builder : TraceSymbol → TraceNodeBuilder
root_builder s = record {
  name = s.name;
  qualified_name = some s.qualified;
  confidence = none;
  children = [];
}

abbrev pub callee_builder : RefRow → TraceNodeBuilder
callee_builder e = record {
  name = e.target_name;
  qualified_name = e.target_qualified;
  confidence = some e.confidence;
  children = [];
}

abbrev pub start_trace : TraceSymbol → Tracing
start_trace origin = record {
  arena = root_builder origin ∷ [];
  queue = (0, origin, 0) ∷ [];
  truncated = false;
}

-- `if next_distance < max_depth && let Some(symbol) = child_symbol { queue.push_back(…) }`
unfoldable pub enqueue :
    ℕ → List (ℕ × TraceSymbol × ℕ) → ℕ → ℕ → Option TraceSymbol → List (ℕ × TraceSymbol × ℕ)
enqueue max_depth queue child_index next_distance none = queue
enqueue max_depth queue child_index next_distance (some s) =
    if ltb next_distance max_depth then queue ++ (child_index, s, next_distance) ∷ [] else queue

module _ (cap max_depth : ℕ) (floor : RefConfidence) (edges : TraceSymbol → List RefRow)
    (target : RefRow → Option TraceSymbol) where
  -- an edge that is visible, where the cap leaves room
  unfoldable pub add_child : Tracing → ℕ → ℕ → RefRow → Tracing
  unfolding push_child enqueue
  add_child t node_index next_distance e = record {
    arena = push_child t.arena node_index (callee_builder e);
    queue = enqueue max_depth t.queue (length t.arena) next_distance (target e);
    truncated = t.truncated;
  }

  -- the inner loop; where it sets `truncated` it leaves both loops
  unfoldable pub scan_edges : Tracing → ℕ → ℕ → List RefRow → Result GraphError Tracing
  unfolding add_child confidence_visible_at_floor
  scan_edges t node_index next_distance [] = ok t
  scan_edges t node_index next_distance (e ∷ es) =
      let skipped = scan_edges t node_index next_distance es in
      let added = scan_edges (add_child t node_index next_distance e) node_index next_distance es in
      elim (confidence_visible_at_floor e.confidence floor) [
        | err failure ↦ err failure
        | ok false ↦ skipped
        | ok true ↦ if leb cap (length t.arena) then ok (record t { truncated = true }) else added
      ]

  -- the outer loop; `none` means that the fuel ran out
  unfoldable pub trace_loop : ℕ → Tracing → Option (Result GraphError Tracing)
  unfolding scan_edges
  trace_loop zero t = elim t.queue [ [] ↦ some (ok t) | _ ∷ _ ↦ none ]
  trace_loop (suc fuel) t = elim t.queue [
    | [] ↦ some (ok t)
    | (node_index, s, distance) ∷ rest ↦
        let popped = record t { queue = rest } in
        let skipped = trace_loop fuel popped in
        let expanded : Option (Result GraphError Tracing) =
          elim (scan_edges popped node_index (suc distance) (edges s)) [
            | err failure ↦ some (err failure)
            | ok scanned ↦
                let next = trace_loop fuel scanned in
                if scanned.truncated then some (ok scanned) else next
          ] in
        if leb max_depth distance then skipped else expanded
  ]

  unfoldable pub search_tree : TraceSymbol → Option (Result GraphError Tracing)
  unfolding trace_loop
  search_tree origin = trace_loop cap (start_trace origin)
