-- ===== src/Queries/Callees.antt =====
-- `run` of crates/orbit-graph/src/query/callees.rs, with `resolve_symbol_span` (query/types.rs).
-- The read of a source file is a parameter, the file's path and bytes its input and output.
pub mod Lines
pub mod Memo
use Prim.Native.Nat.{compare}
use mathlib.Core.Option
use orbit_graph.Common.{
  ℕ, zero, suc, Bool, true, false, not, ◌&&◌, ◌||◌, Option, none, some, List, [], ◌∷◌, Result, ok,
  err, ◌==◌, nat_eq, list_eq, ◌>>=◌, filter, map, any, first, is_empty, length, if◌then◌else◌,
}
use orbit_graph.Common.Maps.{get, put}
use orbit_graph.Common.Sort.{sort_by, then_compare}
use orbit_graph.Common.Text.{Text, codes, trim, is_whitespace, is_some}
use orbit_graph.Selector.{Selector, symbol}
use orbit_graph.Index.{Index, SymbolRow, RefRow}
use orbit_graph.Index.Values.{
  GraphError, RefConfidence, RefKind, call, confidence_from_db, visible_at_floor,
}
use orbit_graph.Impact.Neighbors.{edges_for_symbol}
use Lines.{LineIndex, line_index, line_for}

pub record SymbolSpan : Type 0 where
  pub file_path : Text
  pub span_start : ℕ
  pub span_end : ℕ

pub record CalleeOpts : Type 0 where
  pub confidence : RefConfidence
  pub kind : Option RefKind
  pub hide_unresolved : Bool

pub record CalleeEdge : Type 0 where
  pub target_name : Text
  pub target_qualified : Option Text
  pub confidence : RefConfidence
  pub line : ℕ

pub record CalleeReport : Type 0 where
  pub callees : List CalleeEdge
  pub hidden_unresolved : ℕ

-- CASE WHEN qualified = ?2 THEN 0 ELSE 1 END
abbrev qualified_first : Text → SymbolRow → ℕ
qualified_first wanted s = if s.qualified == wanted then 0 else 1

abbrev pub span_of : SymbolRow → SymbolSpan
span_of s = record { file_path = s.file_path; span_start = s.span_start; span_end = s.span_end }

unfoldable pub resolve_symbol_span : Index → Selector → Option SymbolSpan
unfolding sort_by trim is_whitespace
resolve_symbol_span index (symbol p wanted kind) = Option.map span_of (
    first (
      sort_by
        (λ a b.
          then_compare (compare (qualified_first wanted a) (qualified_first wanted b))
            (compare a.id b.id))
        (filter
          (λ s.
            s.file_path == p
            && (s.name == wanted || s.qualified == wanted)
            && (is_empty (trim kind) || s.kind == trim kind))
          index.symbols)))
resolve_symbol_span index _ = none

-- kind IN ('function', 'method', 'class', 'struct')
pub is_callable_kind : Text → Bool
is_callable_kind kind =
    kind == codes "function"
    || kind == codes "method"
    || kind == codes "class"
    || kind == codes "struct"

-- SELECT EXISTS (SELECT 1 FROM symbols WHERE name = ?1 AND kind IN (…))
unfoldable pub is_defined : Index → Text → Bool
unfolding is_callable_kind
is_defined index name = any (λ s. s.name == name && is_callable_kind s.kind) index.symbols

-- the answer, and the memo with it
unfoldable pub has_indexed_definition :
    Index → List (Text × Bool) → Text → Bool × List (Text × Bool)
unfolding is_defined get put
has_indexed_definition index memo name = elim (get name memo) [
  | some defined ↦ (defined, memo)
  | none ↦ (is_defined index name, put name (is_defined index name) memo)
]

abbrev pub Selected : Type 0
Selected = List (RefRow × RefConfidence) × ℕ

abbrev pub keep : RefRow × RefConfidence → Selected → Selected
keep edge (edges, hidden) = (edge ∷ edges, hidden)

abbrev pub hide : Selected → Selected
hide (edges, hidden) = (edges, suc hidden)

-- the loop over the edges; the hidden ones are counted
unfoldable pub select_edges :
    Index → CalleeOpts → List (Text × Bool) → List RefRow → Result GraphError Selected
unfolding has_indexed_definition confidence_from_db visible_at_floor
select_edges index opts memo [] = ok ([], 0)
select_edges index opts memo (e ∷ es) =
    let (defined, memo') = has_indexed_definition index memo e.target_name in
    let asks = opts.hide_unresolved && not (is_some e.target_qualified) in
    let skipped = select_edges index opts memo es in
    let asked = select_edges index opts memo' es in
    confidence_from_db e.confidence >>= (λ confidence.
      if not (visible_at_floor confidence opts.confidence)
      then skipped
      else if asks
      then asked >>= (λ rest. ok (if defined then keep (e, confidence) rest else hide rest))
      else skipped >>= (λ rest. ok (keep (e, confidence) rest)))

-- `materialize_edges`, which reads the file only where it has an edge
pub located : LineIndex → RefRow × RefConfidence → CalleeEdge
unfolding line_for
located lines (e, confidence) = record {
  target_name = e.target_name;
  target_qualified = e.target_qualified;
  confidence = confidence;
  line = line_for lines e.from_span_start;
}

unfoldable pub materialize_edges :
    (Text → Result GraphError (List ℕ))
    → Text
    → List (RefRow × RefConfidence)
    → Result GraphError (List CalleeEdge)
unfolding line_index located
materialize_edges read_source p [] = ok []
materialize_edges read_source p (edge ∷ edges) =
    read_source p >>= (λ bytes. ok (map (located (line_index bytes)) (edge ∷ edges)))

abbrev empty_report : CalleeReport
empty_report = record { callees = []; hidden_unresolved = 0 }

-- `kind.is_some_and(|kind| kind != RefKind::Call)`
abbrev asks_other_kind : Option RefKind → Bool
asks_other_kind none = false
asks_other_kind (some call) = false
asks_other_kind (some _) = true

-- `run`
unfoldable pub callees :
    Index
    → (Text → Result GraphError (List ℕ))
    → Selector
    → CalleeOpts
    → Result GraphError CalleeReport
unfolding resolve_symbol_span edges_for_symbol select_edges materialize_edges
callees index read_source sel opts = elim (asks_other_kind opts.kind) [
  | true ↦ ok empty_report
  | false ↦ elim (resolve_symbol_span index sel) [
    | none ↦ ok empty_report
    | some s ↦ do
      selected ←
          select_edges index opts [] (edges_for_symbol index s.file_path s.span_start s.span_end)
      lines ← materialize_edges read_source s.file_path selected.0
      ok (record { callees = lines; hidden_unresolved = selected.1 })
  ]
]
