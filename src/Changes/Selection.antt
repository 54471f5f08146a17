-- ===== src/Changes/Selection.antt =====
-- crates/orbit-graph-changes/src/selection.rs: the selectors that a caller asks for, resolved once
-- against each snapshot. `locate` is the query of a snapshot's graph for the metadata of a node.
pub mod Laws
use mathlib.Core.Option
use mathlib.Core.Option.{or_else}
use orbit_graph.Common.{
  Bool, true, false, not, ◌&&◌, ◌||◌, List, [], ◌∷◌, ◌++◌, Option, none, some, map, ◌==◌, nat_eq,
  list_eq, if◌then◌else◌, filter, contains, is_empty, Result, ok, err, ◌>>=◌,
}
use orbit_graph.Common.Text.{Text, strip_prefix, trim, is_whitespace, rsplit_once, split_once}
use orbit_graph.Selector.Path.{normalize_path_text}
use orbit_graph.Common.Maps.{add_all}
use orbit_graph.Selector
use orbit_graph.Selector.{Selector, to_string}
use orbit_graph.Selector.Parse.{from_str, SelectorParseError}
use orbit_graph.Changes.Types.{SnapshotSide}

pub record NodeMetadata : Type 0 where
  pub file : Text
  pub kind : Text
  pub name : Option Text
  pub qualified : Option Text

pub data EvidenceError : Type 0 where
  invalid_selector : SelectorParseError → EvidenceError
  not_a_symbol : Text → EvidenceError
  failed_query : SnapshotSide → Text → EvidenceError

abbrev pub Locate : Type 0
Locate = SnapshotSide → Selector → Result Text (Option NodeMetadata)

pub record Entry : Type 0 where
  pub requested : Text
  pub base : Option Text
  pub head : Option Text

pub record ResolvedSelection : Type 0 where
  pub entries : List Entry
  pub base : List Text
  pub head : List Text

-- the selector of a node that has a name
pub selector_of_node : NodeMetadata → Option Text
unfolding or_else to_string
selector_of_node node =
    Option.map (λ s. to_string (Selector.symbol node.file s node.kind))
      (or_else node.qualified node.name)

pub canonical_of :
    SnapshotSide → Result Text (Option NodeMetadata) → Result EvidenceError (Option Text)
unfolding selector_of_node Option.bind
canonical_of side (err reason) = err (failed_query side reason)
canonical_of side (ok view) = ok (Option.bind view selector_of_node)

pub canonical : Locate → SnapshotSide → Selector → Result EvidenceError (Option Text)
unfolding canonical_of
canonical locate side selector = canonical_of side (locate side selector)

pub is_symbol : Selector → Bool
is_symbol (Selector.symbol path name kind) = true
is_symbol (Selector.dir path) = false
is_symbol (Selector.file path) = false
is_symbol (Selector.module_named name) = false
is_symbol (Selector.command name) = false

-- `text.parse::<Selector>()`, with the test that it names a symbol
pub parse_symbol_text : Text → Result EvidenceError Selector
unfolding is_symbol from_str strip_prefix trim is_whitespace rsplit_once split_once
    normalize_path_text
parse_symbol_text text = elim (from_str text) [
  | err e ↦ err (invalid_selector e)
  | ok selector ↦ if is_symbol selector then ok selector else err (not_a_symbol text)
]

pub insert_some : Option Text → List Text → List Text
unfolding add_all
insert_some none set = set
insert_some (some selector) set = add_all set (selector ∷ [])

-- what a resolved request adds
pub with_entry : Entry → ResolvedSelection → ResolvedSelection
unfolding insert_some
with_entry entry resolved = record {
  entries = resolved.entries ++ entry ∷ [];
  base = insert_some entry.base resolved.base;
  head = insert_some entry.head resolved.head;
}

pub resolve_from : Locate → List Text → ResolvedSelection → Result EvidenceError ResolvedSelection
unfolding parse_symbol_text canonical with_entry
resolve_from locate [] resolved = ok resolved
resolve_from locate (text ∷ texts) resolved = do
  selector ← parse_symbol_text text
  base ← canonical locate SnapshotSide.base selector
  head ← canonical locate SnapshotSide.head selector
  resolve_from locate texts
      (with_entry (record { requested = text; base = base; head = head }) resolved)

unfoldable pub resolve : Locate → List Text → Result EvidenceError ResolvedSelection
unfolding resolve_from
resolve locate requested =
    resolve_from locate requested (record { entries = []; base = []; head = [] })

pub is_in : List Text → Option Text → Bool
is_in set none = false
is_in set (some selector) = contains set selector

unfoldable pub selects : ResolvedSelection → Option Text → Option Text → Bool
unfolding is_in
selects resolved base head =
    is_empty resolved.entries || is_in resolved.base base || is_in resolved.head head

abbrev pub Occurrence : Type 0
Occurrence = SnapshotSide × Text

-- the set of the occurrences on a side
pub on_base : List Occurrence → List Text
on_base [] = []
on_base ((SnapshotSide.base, selector) ∷ rest) = selector ∷ on_base rest
on_base ((SnapshotSide.head, selector) ∷ rest) = on_base rest

pub on_head : List Occurrence → List Text
on_head [] = []
on_head ((SnapshotSide.base, selector) ∷ rest) = on_head rest
on_head ((SnapshotSide.head, selector) ∷ rest) = selector ∷ on_head rest

unfoldable pub unmatched : ResolvedSelection → List Occurrence → List Text
unfolding is_in on_base on_head
unmatched resolved occurrences =
    map (λ (entry : Entry). entry.requested)
      (filter
        (λ (entry : Entry).
          not (is_in (on_base occurrences) entry.base)
          && not (is_in (on_head occurrences) entry.head))
        resolved.entries)
