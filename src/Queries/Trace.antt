-- ===== src/Queries/Trace.antt =====
-- `run` of crates/orbit-graph/src/query/trace.rs and the functions that it calls. `Arena` has the
-- nodes under construction. The loop takes fuel, one step for each popped item.
pub mod Arena
pub mod Search
pub mod Grown
pub mod Moved
pub mod Owed
pub mod Count
pub mod Steps
pub mod Scan
pub mod Outcome
pub mod Loop
pub mod Laws
pub mod Results
use Prim.Native.Nat.{compare}
use mathlib.Core.Option
use orbit_graph.Common.{
  ℕ, zero, Bool, true, false, not, ◌&&◌, Option, none, some, List, [], ◌∷◌, Result, ok, err, ◌==◌,
  nat_eq, list_eq, filter, find, first, length, if◌then◌else◌,
}
use orbit_graph.Common.Sort.{sort_by}
use orbit_graph.Common.Text.{Text, codes, trim, is_whitespace, strip_prefix}
use orbit_graph.Index.{Index, SymbolRow, RefRow}
use orbit_graph.Index.Values.{GraphError, RefConfidence}
use orbit_graph.Impact.Neighbors.{edges_for_symbol}
use Arena.{TraceNode, TraceNodeBuilder, build_tree}
use Search.{TraceSymbol, Tracing, search_tree}

abbrev pub default_trace_depth : ℕ
default_trace_depth = 5

abbrev pub trace_node_cap : ℕ
trace_node_cap = 200

pub record TraceResult : Type 0 where
  pub root : Option TraceNode
  pub truncated : Bool
  pub visited_nodes : ℕ
  pub total : Option ℕ

unfoldable pub normalize_command_selector : Text → Text
unfolding trim is_whitespace strip_prefix
normalize_command_selector command = elim (strip_prefix (codes "command:") (trim command)) [
  | none ↦ trim command
  | some rest ↦ trim rest
]

pub trace_symbol_from_row : SymbolRow → TraceSymbol
trace_symbol_from_row s = record {
  file_path = s.file_path;
  name = s.name;
  qualified = s.qualified;
  span_start = s.span_start;
  span_end = s.span_end;
}

-- `name` is the primary key of commands, and `id` that of symbols
unfoldable pub resolve_command_handler : Index → Text → Option TraceSymbol
unfolding trace_symbol_from_row Option.bind
resolve_command_handler index command =
    Option.bind (find (λ c. c.name == command) index.commands) (λ c.
      Option.bind c.handler_symbol
        (λ handler. Option.map trace_symbol_from_row (find (λ s. s.id == handler) index.symbols)))

-- the row that the hint names, if it still has the qualified name
pub hinted_symbol : Index → Text → Option ℕ → Option TraceSymbol
unfolding trace_symbol_from_row Option.bind
hinted_symbol index qualified hint = Option.bind hint (λ id.
    Option.map trace_symbol_from_row
      (find (λ s. s.id == id && s.qualified == qualified) index.symbols))

unfoldable pub resolve_symbol : Index → Text → Option ℕ → Option TraceSymbol
unfolding hinted_symbol trace_symbol_from_row sort_by
resolve_symbol index qualified hint = elim (hinted_symbol index qualified hint) [
  | some s ↦ some s
  | none ↦ Option.map trace_symbol_from_row (
      first
        (sort_by (λ a b. compare a.id b.id) (filter (λ s. s.qualified == qualified) index.symbols)))
]

-- the calls out of a symbol, and the symbol that a call reaches
unfoldable pub callees_of : Index → TraceSymbol → List RefRow
unfolding edges_for_symbol
callees_of index s = edges_for_symbol index s.file_path s.span_start s.span_end

unfoldable pub child_symbol : Index → RefRow → Option TraceSymbol
unfolding resolve_symbol Option.bind
child_symbol index edge =
    Option.bind edge.target_qualified (λ q. resolve_symbol index q edge.target_symbol_hint)

pub max_depth_of : ℕ → ℕ
max_depth_of depth = if depth == 0 then default_trace_depth else depth

-- the end of `run`; `none` stands for a node index outside the arena, where `build_tree` panics
unfoldable pub trace_result : Tracing → Option TraceResult
unfolding build_tree Option.bind
trace_result t = Option.bind (build_tree t.arena trace_node_cap 0) (λ tree. some (record {
  root = some tree;
  truncated = t.truncated;
  visited_nodes = length t.arena;
  total = if not t.truncated then some (length t.arena) else none;
}))

abbrev pub empty_trace : TraceResult
empty_trace = record { root = none; truncated = false; visited_nodes = 0; total = some 0 }

-- what `run` makes of the loop's outcome
unfoldable pub conclude :
    Option (Result GraphError Tracing) → Option (Result GraphError TraceResult)
unfolding trace_result Option.bind
conclude none = none
conclude (some (err e)) = some (err e)
conclude (some (ok t)) = Option.bind (trace_result t) (λ r. some (ok r))

-- `run`; `none` stands for a panic, or for a loop without end
unfoldable pub trace : Index → Text → ℕ → RefConfidence → Option (Result GraphError TraceResult)
unfolding normalize_command_selector resolve_command_handler callees_of child_symbol max_depth_of
    search_tree conclude
trace index command depth floor =
    elim (resolve_command_handler index (normalize_command_selector command)) [
      | none ↦ some (ok empty_trace)
      | some origin ↦ conclude (
          search_tree trace_node_cap (max_depth_of depth) floor (callees_of index)
            (child_symbol index) origin)
    ]
