-- ===== src/Impact/Resolve.antt =====
-- The queries of crates/orbit-graph/src/query/impact.rs that find a symbol: for a selector, and for
-- a neighbour.
pub mod Rows
use Prim.Native.Nat.{compare}
use orbit_graph.Common.{
  ℕ, Bool, ◌&&◌, ◌||◌, Option, none, some, ◌==◌, nat_eq, list_eq, if◌then◌else◌, filter, find,
  first, is_empty,
}
use mathlib.Core.Option
use orbit_graph.Common.Sort.{sort_by, then_compare}
use orbit_graph.Common.Text.{Text, codes, trim, is_whitespace}
use orbit_graph.Selector.{Selector, dir, file, symbol, module_named, command}
use orbit_graph.Index.{Index, SymbolRow}
use orbit_graph.Impact.Types.{file_origin, symbol_origin, ImpactSymbol, ImpactNeighbor}

unfoldable pub impact_symbol_from_row : SymbolRow → ImpactSymbol
impact_symbol_from_row s = record {
  id = s.id;
  file_path = s.file_path;
  qualified = s.qualified;
  name = s.name;
  span_start = s.span_start;
  span_end = s.span_end;
  kind = s.kind;
}

-- CASE WHEN qualified = ?2 THEN 0 WHEN name = ?2 THEN 1 ELSE 2 END
abbrev name_rank : Text → SymbolRow → ℕ
name_rank wanted s = if s.qualified == wanted then 0 else if s.name == wanted then 1 else 2

-- SELECT … FROM symbols WHERE matching ORDER BY CASE …, id LIMIT 1
pub best_named : Index → Text → (SymbolRow → Bool) → Option ImpactSymbol
unfolding sort_by impact_symbol_from_row
best_named index wanted matching = Option.map impact_symbol_from_row (
    first (
      sort_by
        (λ a b.
          then_compare (compare (name_rank wanted a) (name_rank wanted b)) (compare a.id b.id))
        (filter (λ s. matching s && (s.name == wanted || s.qualified == wanted)) index.symbols)))

pub resolve_symbol_selector : Index → Text → Text → Text → Option ImpactSymbol
unfolding best_named trim is_whitespace
resolve_symbol_selector index p wanted kind =
    if is_empty (trim kind)
    then best_named index wanted (λ s. s.file_path == p)
    else best_named index wanted (λ s. s.file_path == p && s.kind == kind)

pub resolve_module_selector : Index → Text → Option ImpactSymbol
unfolding best_named
resolve_module_selector index qualified = best_named index qualified (λ s. s.kind == codes "module")

-- `name` is the primary key of commands: at most one row has it
pub resolve_command_selector : Index → Text → Option ImpactSymbol
unfolding impact_symbol_from_row Option.bind
resolve_command_selector index wanted =
    Option.bind (find (λ c. c.name == wanted) index.commands) (λ c.
      Option.bind c.handler_symbol
        (λ handler. Option.map impact_symbol_from_row (find (λ s. s.id == handler) index.symbols)))

unfoldable pub resolve_selector : Index → Selector → Option ImpactSymbol
unfolding resolve_symbol_selector resolve_module_selector resolve_command_selector
resolve_selector index (symbol p s k) = resolve_symbol_selector index p s k
resolve_selector index (module_named q) = resolve_module_selector index q
resolve_selector index (command n) = resolve_command_selector index n
resolve_selector index (file p) = none
resolve_selector index (dir p) = none

-- ORDER BY id LIMIT 1
pub resolve_symbol_by_qualified : Index → Text → Option ImpactSymbol
unfolding sort_by impact_symbol_from_row
resolve_symbol_by_qualified index qualified = Option.map impact_symbol_from_row (
    first
      (sort_by (λ a b. compare a.id b.id) (filter (λ s. s.qualified == qualified) index.symbols)))

-- the row that the hint names, if it still has the qualified name
pub hinted : Index → ImpactNeighbor → Option ImpactSymbol
unfolding impact_symbol_from_row Option.bind
hinted index neighbor = Option.bind neighbor.symbol_id (λ id.
    Option.map impact_symbol_from_row
      (find (λ s. s.id == id && s.qualified == neighbor.qualified_name) index.symbols))

pub resolve_symbol_neighbor : Index → ImpactNeighbor → Option ImpactSymbol
unfolding hinted resolve_symbol_by_qualified
resolve_symbol_neighbor index neighbor = elim (hinted index neighbor) [
  | some s ↦ some s
  | none ↦ resolve_symbol_by_qualified index neighbor.qualified_name
]

unfoldable pub resolve_neighbor_symbol : Index → ImpactNeighbor → Option ImpactSymbol
unfolding resolve_symbol_neighbor
resolve_neighbor_symbol index neighbor = elim neighbor.origin [
  | file_origin ↦ none
  | symbol_origin ↦ resolve_symbol_neighbor index neighbor
]
