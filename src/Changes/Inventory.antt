-- ===== src/Changes/Inventory.antt =====
-- crates/orbit-graph-changes/src/changes.rs: the symbols of one snapshot. A snapshot is what the
-- query for its graph's overview gives, with its commit and the files that were left out of it.
use mathlib.Core.Option
pub mod Loaded
use orbit_graph.Common.{
  Bool, true, false, not, List, [], ◌∷◌, ◌++◌, Option, none, some, ◌==◌, nat_eq, list_eq,
  if◌then◌else◌, contains, find, decided, ◌&&◌, Result, ok, err, ◌>>=◌,
}
use orbit_graph.Common.Text.{Text, codes, is_some}
use orbit_graph.Common.Sort.{sort_by, compare_text, then_compare}
use orbit_graph.Common.Maps.{get, put, push_to, add_all}
use orbit_graph.Selector
use orbit_graph.Selector.{Selector, to_string}
use orbit_graph.Changes.Types.{
  SnapshotSide, side_label, ChangesError, or_query, SymbolRef, ExclusionReason, OutOfScopeReason,
  from_exclusion, OutOfScopeEntry,
}
use orbit_graph.Changes.Files.{ChangedFiles, base_paths, head_paths}

-- what `overview` lists of a file
pub record OverviewSymbol : Type 0 where
  pub name : Text
  pub qualified : Text
  pub kind : Text

pub record OverviewFile : Type 0 where
  pub path : Text
  pub symbols : List OverviewSymbol

pub record ExcludedEntry : Type 0 where
  pub path : Text
  pub reason : ExclusionReason

pub record Snapshot : Type 0 where
  pub commit_sha : Text
  pub overview : Result Text (List OverviewFile)
  pub excluded : List ExcludedEntry

pub record IndexedSymbol : Type 0 where
  pub path : Text
  pub name : Text
  pub qualified : Text
  pub kind : Text
  pub selector : Text

pub record SideInventory : Type 0 where
  pub side : SnapshotSide
  pub commit_sha : Text
  pub indexed_files : List Text
  pub symbols : List (Text × IndexedSymbol)
  pub ambiguous_selectors : List Text
  pub by_path : List (Text × List Text)

unfoldable pub selector_of : Text → OverviewSymbol → Text
unfolding to_string
selector_of path s = to_string (Selector.symbol path s.qualified s.kind)

-- one symbol of a file: a selector that was there before is ambiguous, and is not listed again
unfoldable pub load_symbol : Text → OverviewSymbol → SideInventory → SideInventory
unfolding get put push_to add_all
load_symbol path s inv =
    let selector = selector_of path s in
    let symbols =
      put selector
        (record {
          path = path;
          name = s.name;
          qualified = s.qualified;
          kind = s.kind;
          selector = selector;
        })
        inv.symbols in
    if is_some (get selector inv.symbols)
    then record inv {
      symbols = symbols;
      ambiguous_selectors = add_all inv.ambiguous_selectors (selector ∷ []);
    }
    else record inv { symbols = symbols; by_path = push_to path selector inv.by_path }

unfoldable pub load_symbols : Text → List OverviewSymbol → SideInventory → SideInventory
unfolding load_symbol selector_of
load_symbols path [] inv = inv
load_symbols path (s ∷ rest) inv = load_symbols path rest (load_symbol path s inv)

unfoldable pub load_files : List OverviewFile → SideInventory → SideInventory
unfolding load_symbols add_all
load_files [] inv = inv
load_files (file ∷ files) inv = load_files files (
    load_symbols file.path file.symbols
      (record inv { indexed_files = add_all inv.indexed_files (file.path ∷ []) }))

unfoldable pub load_overview : SnapshotSide → Text → List OverviewFile → SideInventory
unfolding load_files
load_overview side commit_sha overview = load_files overview (record {
  side = side;
  commit_sha = commit_sha;
  indexed_files = [];
  symbols = [];
  ambiguous_selectors = [];
  by_path = [];
})

abbrev pub list_symbols : Text
list_symbols = codes "list indexed symbols"

-- `SideInventory::load`
unfoldable pub load : SnapshotSide → Snapshot → Result ChangesError SideInventory
unfolding load_overview
load side snapshot = do
  overview ← or_query list_symbols side snapshot.overview
  ok (load_overview side snapshot.commit_sha overview)

unfoldable pub symbol_ref : SideInventory → Text → SymbolRef
unfolding side_label
symbol_ref inv selector = record {
  selector = selector;
  snapshot = side_label inv.side;
  commit_sha = inv.commit_sha;
}

unfoldable pub selectors_in : SideInventory → Text → List Text
unfolding get
selectors_in inv path = elim (get path inv.by_path) [ none ↦ [] | some selectors ↦ selectors ]

unfoldable pub selectors_of : SideInventory → List Text → List Text
unfolding selectors_in
selectors_of inv [] = []
selectors_of inv (path ∷ paths) = selectors_in inv path ++ selectors_of inv paths

-- `candidate_selectors`, in the order of the set
unfoldable pub candidate_selectors : SideInventory → List Text → List Text
unfolding selectors_of add_all sort_by
candidate_selectors inv paths = sort_by compare_text (add_all [] (selectors_of inv paths))

-- one side of `out_of_scope`
pub reason_of : List ExcludedEntry → Text → OutOfScopeReason
unfolding from_exclusion
reason_of excluded path = elim (find (λ (e : ExcludedEntry). e.path == path) excluded) [
  | none ↦ OutOfScopeReason.unsupported_language
  | some e ↦ from_exclusion e.reason
]

pub side_entries : SideInventory → List ExcludedEntry → List Text → List OutOfScopeEntry
unfolding reason_of side_label
side_entries inv excluded [] = []
side_entries inv excluded (path ∷ paths) =
    let later = side_entries inv excluded paths in
    if contains inv.indexed_files path
    then later
    else record { path = path; reason = reason_of excluded path; snapshot = side_label inv.side }
      ∷ later

OutOfScopeReason-discrete : Discrete OutOfScopeReason
OutOfScopeReason-discrete = hlevel

pub same_entry : OutOfScopeEntry → OutOfScopeEntry → Bool
unfolding OutOfScopeReason-discrete
same_entry a b =
    a.path == b.path
    && decided (OutOfScopeReason-discrete a.reason b.reason)
    && a.snapshot == b.snapshot

-- `Vec::dedup`, which drops what equals the entry kept before it
pub dedup : List OutOfScopeEntry → List OutOfScopeEntry
unfolding same_entry
dedup [] = []
dedup (a ∷ []) = a ∷ []
dedup (a ∷ b ∷ rest) =
    let with_b = dedup (b ∷ rest) in
    let without_b = dedup (a ∷ rest) in if same_entry a b then without_b else a ∷ with_b

unfoldable pub out_of_scope :
    Snapshot → Snapshot → ChangedFiles → SideInventory → SideInventory → List OutOfScopeEntry
unfolding side_entries base_paths head_paths sort_by dedup
out_of_scope base_snapshot head_snapshot files base head = dedup (
    sort_by
      (λ (a : OutOfScopeEntry) (b : OutOfScopeEntry).
        then_compare (compare_text a.path b.path) (compare_text a.snapshot b.snapshot))
      (side_entries base base_snapshot.excluded (base_paths files)
        ++ side_entries head head_snapshot.excluded (head_paths files)))
