-- ===== src/Impact/Neighbors.antt =====
-- The queries of crates/orbit-graph/src/query/impact.rs for the neighbours of one symbol, with
-- `INBOUND_TARGET_MATCH` (query/mod.rs) and `edges_for_symbol` (query/callees.rs).
use Prim.Native.Nat.{compare}
use orbit_graph.Common.{
  ℕ, ◌+◌, Bool, true, false, not, ◌&&◌, ◌||◌, List, [], ◌∷◌, ◌++◌, map, none, some, Result, ok,
  ◌>>=◌, ◌==◌, nat_eq, list_eq, option_eq, leb, filter, any, first,
}
use orbit_graph.Common.Sort.{sort_by, then_compare, compare_text}
use orbit_graph.Common.Text.{Text, codes}
use orbit_graph.Index.{Index, SymbolRow, RefRow, RelationRow}
use orbit_graph.Index.Values.{
  GraphError, RefConfidence, fuzzy_name, call, confidence_from_db, kind_from_db, visible_at_floor,
}
use orbit_graph.Impact.Types.{
  ImpactDirection, inbound, outbound, both, symbol_origin, file_origin, ImpactSymbol,
  ImpactNeighbor, RawNeighborRow,
}

unfoldable pub confidence_visible_at_floor : Text → RefConfidence → Result GraphError Bool
unfolding confidence_from_db visible_at_floor
confidence_visible_at_floor confidence floor = do
  c ← confidence_from_db confidence
  ok (visible_at_floor c floor)

-- one row of the loop in `rows_to_neighbors`, before the neighbours of the rows after it
pub keep_row :
    RawNeighborRow
    → Bool
    → Result GraphError (List ImpactNeighbor)
    → Result GraphError (List ImpactNeighbor)
keep_row row false rest = rest
keep_row row true rest = elim row.qualified_name [
  | none ↦ rest
  | some qualified ↦ do
    kind ← kind_from_db row.kind
    more ← rest
    ok (
        record {
          qualified_name = qualified;
          symbol_id = row.symbol_id;
          edge_kind = kind;
          origin = row.origin;
          site_offset = row.site_offset;
        }
        ∷ more)
]

unfoldable pub rows_to_neighbors :
    List RawNeighborRow → RefConfidence → Result GraphError (List ImpactNeighbor)
unfolding keep_row confidence_visible_at_floor kind_from_db
rows_to_neighbors [] floor = ok []
rows_to_neighbors (row ∷ rows) floor =
    let rest = rows_to_neighbors rows floor in
    do visible ← confidence_visible_at_floor row.confidence floor; keep_row row visible rest

-- the symbols whose span holds the site of a ref, the smallest first
pub enclosing : Index → RefRow → List SymbolRow
unfolding sort_by
enclosing index r =
    sort_by
      (λ a b.
        then_compare (compare (a.span_end + b.span_start) (b.span_end + a.span_start))
          (compare a.id b.id))
      (filter
        (λ s.
          s.file_path == r.from_file
          && leb s.span_start r.from_span_start
          && leb r.from_span_end s.span_end)
        index.symbols)

pub raw_neighbor_row : Index → RefRow → RawNeighborRow
unfolding enclosing
raw_neighbor_row index r = elim (first (enclosing index r)) [
  | some s ↦ record {
    qualified_name = some s.qualified;
    symbol_id = some s.id;
    kind = r.kind;
    confidence = r.confidence;
    origin = symbol_origin;
    site_offset = some r.from_span_start;
  }
  | none ↦ record {
    qualified_name = some r.from_file;
    symbol_id = none;
    kind = r.kind;
    confidence = r.confidence;
    origin = file_origin;
    site_offset = some r.from_span_start;
  }
]

-- a hint that names a row with the target's qualified name
pub hint_is_current : Index → RefRow → Bool
hint_is_current index r =
    any (λ s. some s.id == r.target_symbol_hint && some s.qualified == r.target_qualified)
      index.symbols

unfoldable pub inbound_target_match : Index → ℕ → Text → RefRow → Bool
unfolding hint_is_current
inbound_target_match index symbol_id qualified r =
    r.target_qualified == some qualified
    && (r.target_symbol_hint == some symbol_id || not (hint_is_current index r))

pub fuzzy_match : Text → RefRow → Bool
fuzzy_match name r =
    r.confidence == codes "fuzzy_name"
    && r.target_name == name
    && not (r.kind == codes "runtime_invocation")

abbrev pub is_fuzzy : RefConfidence → Bool
is_fuzzy fuzzy_name = true
is_fuzzy _ = false

pub inbound_ref_neighbors :
    Index → ℕ → Text → Text → RefConfidence → Result GraphError (List ImpactNeighbor)
unfolding inbound_target_match fuzzy_match raw_neighbor_row rows_to_neighbors sort_by
inbound_ref_neighbors index symbol_id qualified name floor =
    rows_to_neighbors
      (map (raw_neighbor_row index) (
        sort_by
          (λ a b.
            then_compare (compare_text a.from_file b.from_file)
              (then_compare (compare a.from_span_start b.from_span_start) (compare a.id b.id)))
          (filter
            (λ r.
              inbound_target_match index symbol_id qualified r
              || (is_fuzzy floor && fuzzy_match name r))
            index.refs)))
      floor

-- `callees::edges_for_symbol`
unfoldable pub edges_for_symbol : Index → Text → ℕ → ℕ → List RefRow
unfolding sort_by
edges_for_symbol index file_path span_start span_end =
    sort_by (λ a b. then_compare (compare a.from_span_start b.from_span_start) (compare a.id b.id))
      (filter
        (λ r.
          r.from_file == file_path
          && leb span_start r.from_span_start
          && leb r.from_span_end span_end
          && r.kind == codes "call")
        index.refs)

pub keep_edge :
    RefRow
    → Bool
    → Result GraphError (List ImpactNeighbor)
    → Result GraphError (List ImpactNeighbor)
keep_edge edge false rest = rest
keep_edge edge true rest = elim edge.target_qualified [
  | none ↦ rest
  | some qualified ↦ do
    more ← rest
    ok (
        record {
          qualified_name = qualified;
          symbol_id = edge.target_symbol_hint;
          edge_kind = call;
          origin = symbol_origin;
          site_offset = none;
        }
        ∷ more)
]

-- the loop of `outbound_call_neighbors`
pub edges_to_neighbors : List RefRow → RefConfidence → Result GraphError (List ImpactNeighbor)
unfolding keep_edge confidence_visible_at_floor
edges_to_neighbors [] floor = ok []
edges_to_neighbors (edge ∷ edges) floor =
    let rest = edges_to_neighbors edges floor in
    do visible ← confidence_visible_at_floor edge.confidence floor; keep_edge edge visible rest

pub outbound_call_neighbors :
    Index → ImpactSymbol → RefConfidence → Result GraphError (List ImpactNeighbor)
unfolding edges_for_symbol edges_to_neighbors
outbound_call_neighbors index s floor =
    edges_to_neighbors (edges_for_symbol index s.file_path s.span_start s.span_end) floor

-- `relation_rows`: the rows that `matching` picks, each read as the name at its other end
pub relation_rows :
    Index
    → (RelationRow → Bool)
    → (RelationRow → Text)
    → RefConfidence
    → Result GraphError (List ImpactNeighbor)
unfolding rows_to_neighbors sort_by
relation_rows index matching other floor =
    rows_to_neighbors
      (map
        (λ r. record {
          qualified_name = some (other r);
          symbol_id = none;
          kind = r.kind;
          confidence = r.confidence;
          origin = symbol_origin;
          site_offset = none;
        })
        (sort_by
          (λ a b.
            then_compare (compare_text a.def_file b.def_file)
              (then_compare (compare a.def_span_start b.def_span_start) (compare a.id b.id)))
          (filter matching index.relations)))
      floor

pub relation_neighbors :
    Index → Text → RefConfidence → ImpactDirection → Result GraphError (List ImpactNeighbor)
unfolding relation_rows
relation_neighbors index qualified floor inbound =
    relation_rows index (λ r. r.to_qualified == qualified) (λ r. r.from_qualified) floor
relation_neighbors index qualified floor outbound =
    relation_rows index (λ r. r.from_qualified == qualified) (λ r. r.to_qualified) floor
relation_neighbors index qualified floor both = do
  callers ← relation_rows index (λ r. r.to_qualified == qualified) (λ r. r.from_qualified) floor
  targets ← relation_rows index (λ r. r.from_qualified == qualified) (λ r. r.to_qualified) floor
  ok (callers ++ targets)

pub ref_neighbors :
    Index → ImpactSymbol → RefConfidence → ImpactDirection → Result GraphError (List ImpactNeighbor)
unfolding inbound_ref_neighbors outbound_call_neighbors
ref_neighbors index s floor inbound = inbound_ref_neighbors index s.id s.qualified s.name floor
ref_neighbors index s floor outbound = outbound_call_neighbors index s floor
ref_neighbors index s floor both = do
  values ← inbound_ref_neighbors index s.id s.qualified s.name floor
  more ← outbound_call_neighbors index s floor
  ok (values ++ more)

unfoldable pub neighbors :
    Index → RefConfidence → ImpactDirection → ImpactSymbol → Result GraphError (List ImpactNeighbor)
unfolding ref_neighbors relation_neighbors
neighbors index floor direction s = do
  values ← ref_neighbors index s floor direction
  relations ← relation_neighbors index s.qualified floor direction
  ok (values ++ relations)
