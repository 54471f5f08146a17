-- ===== src/Tests/ImpactRuns.antt =====
-- Runs of crates/orbit-graph/src/query/impact.rs over a small index: `helper` is called by `entry`,
-- and `entry` by a line outside every symbol.
use mathlib.Core.List.Memᴰ.{head, tail}
use orbit_graph.Common.{
  ℕ, false, List, [], ◌∷◌, Option, none, some, Result, ok, ◌≡◌, refl, arith, length, map, ◌+◌, ◌≤◌,
  All, ◌≢◌, sym, ap, ◌∙◌,
}
use orbit_graph.Common.Sort.{sort_by}
use orbit_graph.Common.Text.{Text, codes}
use orbit_graph.Selector.{Selector, symbol}
use orbit_graph.Index.{Index, SymbolRow, RefRow}
use orbit_graph.Index.Values.{GraphError, exact, call}
use orbit_graph.Impact.Types.{
  ImpactSymbol, ImpactNeighbor, ImpactResult, ImpactTraversal, inbound, file_origin, symbol_origin,
}
use orbit_graph.Impact.Neighbors.{neighbors}
use orbit_graph.Impact.Resolve.{impact_symbol_from_row, resolve_neighbor_symbol, resolve_selector}
use orbit_graph.Impact.Resolve.Rows.{HasPrimaryKey}
use orbit_graph.Impact.Bfs.{search, locate, node_key, entry_of, key_of}
use orbit_graph.Impact.Run.{run, traverse, result_of, impact_node_cap}
use orbit_graph.Impact.Bfs.Levels.{Grows, distances}
use orbit_graph.Impact.Bfs.Sound.{Touches, step, here}
use orbit_graph.Impact.Bfs.Complete.{IsListed}
use orbit_graph.Impact.Run.Coherent.{IsCoherent}
use orbit_graph.Impact.Run.Laws.{
  run_ends, run-IsCoherent, traverse_bounds, traverse-Touches, traverse_complete,
}

abbrev file_name : Text
file_name = codes "lib.rs"

abbrev helper_row : SymbolRow
helper_row = record {
  id = 1;
  file_path = file_name;
  name = codes "helper";
  qualified = codes "m::helper";
  kind = codes "function";
  span_start = 0;
  span_end = 10;
}

abbrev entry_row : SymbolRow
entry_row = record {
  id = 2;
  file_path = file_name;
  name = codes "entry";
  qualified = codes "m::entry";
  kind = codes "function";
  span_start = 20;
  span_end = 40;
}

abbrev call_row : ℕ → ℕ → Text → Text → ℕ → RefRow
call_row id at name qualified hint = record {
  id = id;
  from_file = file_name;
  from_span_start = at;
  from_span_end = at + 5;
  target_name = name;
  target_qualified = some qualified;
  target_symbol_hint = some hint;
  kind = codes "call";
  confidence = codes "exact";
  extracted_qualified = none;
  unresolved_receiver = none;
  spelled_path = false;
}

abbrev small : Index
small = record {
  files = record { path = file_name; lang = codes "rust" } ∷ [];
  symbols = helper_row ∷ entry_row ∷ [];
  refs =
      call_row 1 25 (codes "helper") (codes "m::helper") 1
      ∷ call_row 2 50 (codes "entry") (codes "m::entry") 2
      ∷ [];
  relations = [];
  imports = [];
  commands = [];
}

abbrev line_of : Text → ℕ → Option ℕ
line_of file offset = some 7

abbrev wanted : Selector
wanted = symbol file_name (codes "helper") (codes "function")

abbrev origin : ImpactSymbol
origin = record {
  id = 1;
  file_path = file_name;
  qualified = codes "m::helper";
  name = codes "helper";
  span_start = 0;
  span_end = 10;
  kind = codes "function";
}

answer : Option (Result GraphError ImpactResult)
unfolding run neighbors resolve_neighbor_symbol search locate node_key resolve_selector sort_by
answer = run small line_of wanted 0 exact inbound

summary : Option (Result GraphError ImpactResult) → List (Text × ℕ)
summary (some (ok r)) = map (λ e. (e.qualified_name, e.distance)) r.touched
summary _ = []

answer-summary : summary answer ≡ (codes "m::entry", 1) ∷ (file_name, 2) ∷ []
unfolding summary answer
answer-summary = refl

abbrev entry : ImpactSymbol
entry = record {
  id = 2;
  file_path = file_name;
  qualified = codes "m::entry";
  name = codes "entry";
  span_start = 20;
  span_end = 40;
  kind = codes "function";
}

abbrev entry_calls : ImpactNeighbor
entry_calls = record {
  qualified_name = codes "m::entry";
  symbol_id = some 2;
  edge_kind = call;
  origin = symbol_origin;
  site_offset = some 25;
}

abbrev file_calls : ImpactNeighbor
file_calls = record {
  qualified_name = file_name;
  symbol_id = none;
  edge_kind = call;
  origin = file_origin;
  site_offset = some 50;
}

helper-neighbors : neighbors small exact inbound origin ≡ ok (entry_calls ∷ [])
unfolding neighbors
helper-neighbors = refl

entry-neighbors : neighbors small exact inbound entry ≡ ok (file_calls ∷ [])
unfolding neighbors
entry-neighbors = refl

entry_resolved : resolve_neighbor_symbol small entry_calls ≡ some entry
unfolding resolve_neighbor_symbol
entry_resolved = refl

ids_differ : helper_row.id ≢ entry_row.id
ids_differ e = omega arith

small_keys : HasPrimaryKey small
small_keys _ _ (head ea) (head eb) same = ea ∙ sym eb
small_keys a b (head ea) (tail (head eb)) same =
    absurd (ids_differ (sym (ap (λ z. z.id) ea) ∙ (same ∙ ap (λ z. z.id) eb)))
small_keys a b (tail (head ea)) (head eb) same =
    absurd (ids_differ (sym (sym (ap (λ z. z.id) ea) ∙ (same ∙ ap (λ z. z.id) eb))))
small_keys _ _ (tail (head ea)) (tail (head eb)) same = ea ∙ sym eb
small_keys a b (head ea) (tail (tail none_left)) same = elim none_left [ ]
small_keys a b (tail (head ea)) (tail (tail none_left)) same = elim none_left [ ]
small_keys a b (tail (tail none_left)) mb same = elim none_left [ ]

origin_row : impact_symbol_from_row helper_row ≡ origin
unfolding impact_symbol_from_row
origin_row = refl

travel : ImpactTraversal
unfolding locate
travel = record {
  touched =
      entry_of (resolve_neighbor_symbol small) (locate line_of) entry_calls 1
      ∷ entry_of (resolve_neighbor_symbol small) (locate line_of) file_calls 2
      ∷ [];
  truncated = false;
}

travel_found : traverse small line_of origin 3 exact inbound ≡ some (ok travel)
unfolding travel traverse search locate node_key neighbors resolve_neighbor_symbol sort_by
travel_found = refl

run_ends_example :
    (r : Result GraphError ImpactResult) × (run small line_of wanted 0 exact inbound ≡ some r)
run_ends_example = run_ends small line_of wanted 0 exact inbound

run_found : run small line_of wanted 0 exact inbound ≡ some (ok (result_of inbound travel none))
unfolding travel run result_of resolve_selector search neighbors node_key resolve_neighbor_symbol
    sort_by locate
run_found = refl

run-IsCoherent_example : IsCoherent exact (result_of inbound travel none)
run-IsCoherent_example =
    run-IsCoherent small line_of wanted 0 exact inbound (result_of inbound travel none) run_found

traverse_bounds_example :
    (length travel.touched ≤ impact_node_cap)
    × Grows 1 (distances travel.touched)
    × All (λ d. d ≤ 3) (distances travel.touched)
traverse_bounds_example = traverse_bounds small line_of origin 3 exact inbound travel travel_found

traverse-Touches_example :
    All
      (Touches
        (resolve_neighbor_symbol small)
        (locate line_of)
        (neighbors small exact inbound)
        origin)
      travel.touched
traverse-Touches_example = traverse-Touches small line_of origin 3 exact inbound travel travel_found

traverse_complete_example :
    IsListed
      (resolve_neighbor_symbol small)
      (locate line_of)
      origin
      travel.touched
      (key_of (resolve_neighbor_symbol small) file_calls)
      2
unfolding travel
traverse_complete_example =
    traverse_complete small line_of origin 3 exact inbound travel travel_found small_keys
      (helper_row, head refl, origin_row) refl 1 entry (file_calls ∷ []) file_calls
      (step (entry_calls ∷ []) entry_calls here helper-neighbors (head refl) entry_resolved)
      (omega arith) entry-neighbors (head refl)
