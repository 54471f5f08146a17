-- ===== src/Tests/OtherQueries.antt =====
-- Runs of crates/orbit-graph/src/query/trace.rs, callees.rs, deps.rs and implementors.rs over a
-- small index: the command `serve` is handled by `run`, which calls `step` twice, and `step` calls
-- a function that no symbol defines.
use mathlib.Core.List.{Memᴰ}
use orbit_graph.Common.{
  ℕ, true, false, List, [], ◌∷◌, Option, none, some, Result, ok, ◌≡◌, ◌↔◌, refl, ◌>>=◌,
}
use orbit_graph.Common.Text.{Text, codes}
use orbit_graph.Selector.{symbol, dir}
use orbit_graph.Index.{Index, SymbolRow, RefRow, RelationRow, ImportRow}
use orbit_graph.Index.Values.{GraphError, fuzzy_name}
use orbit_graph.Queries.Trace.{
  trace, TraceResult, resolve_command_handler, normalize_command_selector,
}
use orbit_graph.Queries.Trace.Laws.{whole_tree}
use orbit_graph.Queries.Trace.Results.{Describes, trace-Describes, trace-whole_tree, trace_ends}
use orbit_graph.Queries.Trace.Search.{TraceSymbol}
use orbit_graph.Queries.Trace.Arena.{TraceNode, node, no_nodes, and_nodes}
use orbit_graph.Queries.Callees.{callees, CalleeOpts, select_edges}
use orbit_graph.Queries.Callees.Lines.{line_for, line_index, line_for_lem}
use orbit_graph.Queries.Callees.Memo.{read_edges, selection, select_edges_lem}
use orbit_graph.Queries.Deps.{deps, DepsResult, dep_edge}
use orbit_graph.Queries.Deps.Listed.{IsDeclaredUnder, deps-dir}
use orbit_graph.Queries.Implementors.{implementors, ImplementorsResult, trait_name_from_selector}
use orbit_graph.Queries.Implementors.Listed.{IsImplementor, implementor_of, implementors_lem}

abbrev file_name : Text
file_name = codes "a/m.rs"

abbrev function_row : ℕ → Text → Text → ℕ → ℕ → SymbolRow
function_row id name qualified from to = record {
  id = id;
  file_path = file_name;
  name = name;
  qualified = qualified;
  kind = codes "function";
  span_start = from;
  span_end = to;
}

abbrev call_at : ℕ → ℕ → Text → Option Text → Text → RefRow
call_at id at name qualified confidence = record {
  id = id;
  from_file = file_name;
  from_span_start = at;
  from_span_end = at;
  target_name = name;
  target_qualified = qualified;
  target_symbol_hint = none;
  kind = codes "call";
  confidence = confidence;
  extracted_qualified = none;
  unresolved_receiver = none;
  spelled_path = false;
}

abbrev import_row : ImportRow
import_row = record {
  from_file = file_name;
  target_path = codes "std::fmt";
  target_symbol = none;
  source_symbol = none;
  reexport_module = none;
}

abbrev impl_row : RelationRow
impl_row = record {
  id = 1;
  from_qualified = codes "m::Row";
  to_qualified = codes "std::fmt::Display";
  kind = codes "impl";
  def_file = file_name;
  def_span_start = 0;
  confidence = codes "exact";
}

abbrev run_calls : List RefRow
run_calls =
    call_at 1 2 (codes "step") (some (codes "m::step")) (codes "exact")
    ∷ call_at 2 4 (codes "step") (some (codes "m::step")) (codes "exact")
    ∷ []

abbrev outside_call : RefRow
outside_call = call_at 3 12 (codes "print") none (codes "fuzzy_name")

abbrev small : Index
small = record {
  files = [];
  symbols =
      function_row 1 (codes "run") (codes "m::run") 0 10
      ∷ function_row 2 (codes "step") (codes "m::step") 11 20
      ∷ [];
  refs =
      call_at 1 2 (codes "step") (some (codes "m::step")) (codes "exact")
      ∷ call_at 2 4 (codes "step") (some (codes "m::step")) (codes "exact")
      ∷ outside_call
      ∷ [];
  relations = impl_row ∷ [];
  imports = import_row ∷ [];
  commands = record { name = codes "serve"; handler_symbol = some 1 } ∷ [];
}

abbrev run_symbol : TraceSymbol
run_symbol = record {
  file_path = file_name;
  name = codes "run";
  qualified = codes "m::run";
  span_start = 0;
  span_end = 10;
}

abbrev print_node : TraceNode
print_node = node (codes "print") none (some (codes "fuzzy_name")) no_nodes

abbrev step_node : TraceNode
step_node =
    node (codes "step") (some (codes "m::step")) (some (codes "exact"))
      (and_nodes print_node no_nodes)

abbrev small_result : TraceResult
small_result = record {
  root = some (
      node (codes "run") (some (codes "m::run")) none
        (and_nodes step_node (and_nodes step_node no_nodes)));
  truncated = false;
  visited_nodes = 5;
  total = some 5;
}

serve_known :
    resolve_command_handler small (normalize_command_selector (codes "command: serve"))
    ≡ some run_symbol
unfolding resolve_command_handler normalize_command_selector
serve_known = refl

run_small : trace small (codes "command: serve") 0 fuzzy_name ≡ some (ok small_result)
unfolding trace
run_small = refl

trace-Describes_example : (tree : TraceNode) × Describes tree small_result
trace-Describes_example =
    trace-Describes small (codes "command: serve") 0 fuzzy_name run_symbol serve_known small_result
      run_small

trace-whole_tree_example : small_result.root ≡ some (whole_tree small 0 fuzzy_name run_symbol)
trace-whole_tree_example =
    trace-whole_tree small (codes "command: serve") 0 fuzzy_name run_symbol serve_known small_result
      run_small refl

trace_ends_example :
    (r : Result GraphError TraceResult) × (trace small (codes "command: serve") 0 fuzzy_name
      ≡ some r)
trace_ends_example = trace_ends small (codes "command: serve") 0 fuzzy_name

line_for_lem_example : line_for (line_index (codes "ab\nc")) 3 ≡ 2
line_for_lem_example = line_for_lem (codes "ab\nc") 3

abbrev opts : CalleeOpts
opts = record { confidence = fuzzy_name; kind = none; hide_unresolved = true }

select_edges_lem_example :
    select_edges small opts [] (outside_call ∷ run_calls)
    ≡ (read_edges (outside_call ∷ run_calls) >>= (λ edges. ok (selection small opts edges)))
select_edges_lem_example = select_edges_lem small opts (outside_call ∷ run_calls)

callees_hide :
    callees small (λ p. ok (codes "x\ny")) (symbol file_name (codes "step") (codes "")) opts
    ≡ ok (record { callees = []; hidden_unresolved = 1 })
unfolding callees
callees_hide = refl

abbrev small_deps : DepsResult
small_deps = record { scope = codes "dir:a/"; imports = dep_edge import_row ∷ [] }

deps-small : deps small (dir (codes "a/")) ≡ ok small_deps
unfolding deps
deps-small = refl

deps-dir_example :
    Memᴰ (dep_edge import_row) small_deps.imports
    ↔ IsDeclaredUnder small (codes "a/") (dep_edge import_row)
deps-dir_example = deps-dir small (codes "a/") small_deps (dep_edge import_row) deps-small

abbrev display : Text
display = codes "fmt::Display"

display_name :
    trait_name_from_selector (symbol file_name display (codes "trait")) ≡ some (codes "Display")
unfolding trait_name_from_selector
display_name = refl

implementors_lem_example :
    (r : ImplementorsResult) × (implementors small (symbol file_name display (codes "trait"))
      ≡ ok r)
    × (r.trait_name ≡ codes "Display")
    × (Memᴰ (implementor_of impl_row) r.implementors
        ↔ IsImplementor small (codes "Display") (implementor_of impl_row))
implementors_lem_example =
    implementors_lem small (symbol file_name display (codes "trait")) (codes "Display")
      (implementor_of impl_row) display_name
