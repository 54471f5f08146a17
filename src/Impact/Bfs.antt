-- ===== src/Impact/Bfs.antt =====
-- `traverse` and `locate` of crates/orbit-graph/src/query/impact.rs. The loop is written over what
-- it calls: `expand` for `neighbors(conn, …)?`, `resolve` for `resolve_neighbor_symbol`, and
-- `place` for `locate`. It takes fuel.
pub mod Rule
pub mod Bounds
pub mod Levels
pub mod Sound
pub mod Complete
use mathlib.Core.Option
use orbit_graph.Common.{
  ℕ, zero, suc, Bool, true, false, List, [], ◌∷◌, ◌++◌, Option, none, some, Result, ok, err, ltb,
  leb, if◌then◌else◌, length, contains,
}
use orbit_graph.Common.Text.{Text, codes}
use orbit_graph.Index.Values.{GraphError}
use orbit_graph.Impact.Types.{
  ImpactSymbol, ImpactNeighbor, ImpactEntry, NodeKey, symbol_key, file_key, unresolved_key,
  NodeLocation, node_key_eq, symbol_origin, file_origin,
}

-- `query::symbol_selector`
pub symbol_selector : Text → Text → Text → Text
symbol_selector file_path qualified kind =
    codes "symbol:" ++ (file_path ++ (codes "#" ++ (qualified ++ (codes ":" ++ kind))))

-- `line_for` stands for `LineCache::line_for(…).ok()`, which reads the source file
unfoldable pub locate : (Text → ℕ → Option ℕ) → ImpactNeighbor → Option ImpactSymbol → NodeLocation
unfolding symbol_selector Option.bind
locate line_for neighbor resolved = elim neighbor.origin [
  | file_origin ↦ record {
    selector = some (codes "file:" ++ neighbor.qualified_name);
    file = some neighbor.qualified_name;
    line = Option.bind neighbor.site_offset (line_for neighbor.qualified_name);
  }
  | symbol_origin ↦ elim resolved [
    | none ↦ record { selector = none; file = none; line = none }
    | some s ↦ record {
      selector = some (symbol_selector s.file_path s.qualified s.kind);
      file = some s.file_path;
      line = line_for s.file_path s.span_start;
    }
  ]
]

unfoldable pub node_key : ImpactNeighbor → Option ImpactSymbol → NodeKey
node_key neighbor (some s) = symbol_key s.id
node_key neighbor none = elim neighbor.origin [
  | file_origin ↦ file_key neighbor.qualified_name
  | symbol_origin ↦ unresolved_key neighbor.qualified_name
]

-- The variables of the loop.
pub record Search : Type 0 where
  pub queue : List (ImpactSymbol × ℕ)
  pub seen : List NodeKey
  pub touched : List ImpactEntry
  pub truncated : Bool

abbrev pub Resolve : Type 0
Resolve = ImpactNeighbor → Option ImpactSymbol

abbrev pub Place : Type 0
Place = ImpactNeighbor → Option ImpactSymbol → NodeLocation

abbrev pub Expand : Type 0
Expand = ImpactSymbol → Result GraphError (List ImpactNeighbor)

abbrev pub key_of : Resolve → ImpactNeighbor → NodeKey
key_of resolve n = node_key n (resolve n)

abbrev pub entry_of : Resolve → Place → ImpactNeighbor → ℕ → ImpactEntry
entry_of resolve place n next_distance = record {
  qualified_name = n.qualified_name;
  origin = n.origin;
  distance = next_distance;
  edge_kind = n.edge_kind;
  location = place n (resolve n);
}

-- `if next_distance < max_depth && let Some(next_symbol) = resolved { queue.push_back(…) }`
pub push : ℕ → List (ImpactSymbol × ℕ) → ℕ → Option ImpactSymbol → List (ImpactSymbol × ℕ)
push max_depth queue next_distance none = queue
push max_depth queue next_distance (some s) =
    if ltb next_distance max_depth then queue ++ (s, next_distance) ∷ [] else queue

module _ (max_depth : ℕ) (resolve : Resolve) (place : Place) where
  -- a neighbour that is new, where the cap leaves room
  pub visit : Search → ℕ → ImpactNeighbor → Search
  unfolding push
  visit s next_distance n = record {
    queue = push max_depth s.queue next_distance (resolve n);
    seen = key_of resolve n ∷ s.seen;
    touched = s.touched ++ entry_of resolve place n next_distance ∷ [];
    truncated = s.truncated;
  }

module _ (cap max_depth : ℕ) (resolve : Resolve) (place : Place) where
  -- the inner loop; where it sets `truncated` it leaves both loops
  pub scan : Search → ℕ → List ImpactNeighbor → Search
  unfolding visit
  scan s next_distance [] = s
  scan s next_distance (n ∷ ns) =
      let skipped = scan s next_distance ns in
      let visited = scan (visit max_depth resolve place s next_distance n) next_distance ns in
      if contains s.seen (key_of resolve n)
      then skipped
      else if leb cap (length s.touched)
      then record s { truncated = true }
      else visited

abbrev pub start : ImpactSymbol → Search
start origin = record {
  queue = (origin, 0) ∷ [];
  seen = symbol_key origin.id ∷ [];
  touched = [];
  truncated = false;
}

module _ (cap max_depth : ℕ) (resolve : Resolve) (place : Place) (expand : Expand) where
  -- the outer loop; `none` means that the fuel ran out
  pub loop : ℕ → Search → Option (Result GraphError Search)
  unfolding scan
  loop zero s = elim s.queue [ [] ↦ some (ok s) | _ ∷ _ ↦ none ]
  loop (suc fuel) s = elim s.queue [
    | [] ↦ some (ok s)
    | (x, distance) ∷ rest ↦
        let popped = record s { queue = rest } in
        let skipped = loop fuel popped in
        let expanded : Option (Result GraphError Search) = elim (expand x) [
          | err e ↦ some (err e)
          | ok ns ↦
              let scanned = scan cap max_depth resolve place popped (suc distance) ns in
              let next = loop fuel scanned in if scanned.truncated then some (ok scanned) else next
        ] in
        if leb max_depth distance then skipped else expanded
  ]

  unfoldable pub search : ImpactSymbol → Option (Result GraphError Search)
  unfolding loop
  search origin = loop (suc cap) (start origin)
