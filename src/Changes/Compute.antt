-- ===== src/Changes/Compute.antt =====
-- crates/orbit-graph-changes/src/changes.rs: `ChangedSymbols`, from the two snapshots of a
-- comparison, the repository and the calls of Git.
pub mod Once
pub mod Kept
pub mod Errors
pub mod Returns
use Prim.Native.Nat.{compare, Ordering}
use mathlib.Core.Option
use orbit_graph.Common.{
  Bool, true, false, not, ◌&&◌, ◌||◌, List, [], ◌∷◌, ◌++◌, Option, none, some, map, ◌==◌, nat_eq,
  list_eq, if◌then◌else◌, filter, any, is_empty, Result, ok, err, ◌>>=◌,
}
use orbit_graph.Common.Text.{Text, is_some}
use orbit_graph.Common.Sort.{sort_by, compare_text, then_compare}
use orbit_graph.Selector.{Selector}
use orbit_graph.Changes.Types.{
  SnapshotSide, ChangesError, SymbolRef, ChangedSymbol, ChangedSymbols, status_label, status_rank,
  primary_selector,
}
use orbit_graph.Changes.Files.Git.{Git2, ComparisonMode, changed_files}
use orbit_graph.Changes.Inventory.{Snapshot, load, out_of_scope}
use orbit_graph.Changes.Bodies.{Bytes}
use orbit_graph.Changes.Pairer.{View, Context, Pairer}
use orbit_graph.Changes.Pairer.Rungs.{pair_all}
use orbit_graph.Changes.Filters
use orbit_graph.Changes.Filters.{
  FilterSet, FilterLog, FilteredOut, record_example, into_filtered_out, language_admits,
  scope_admits, change_kind_admits,
}

pub record Comparison : Type 0 where
  pub git : Git2
  pub show : SnapshotSide → Selector → Result Text (Option View)
  pub from_utf8_lossy : Bytes → Text
  pub repository : Text
  pub mode : ComparisonMode
  pub base : Snapshot
  pub head : Snapshot

-- the first steps of `compute`, which read what `Pairer::new` is given
unfoldable pub context_of : Comparison → Result ChangesError Context
unfolding changed_files load
context_of comparison = do
  files ←
      changed_files comparison.git comparison.repository comparison.mode comparison.base.commit_sha
        comparison.head.commit_sha
  base ← load SnapshotSide.base comparison.base
  head ← load SnapshotSide.head comparison.head
  ok (record {
    show = comparison.show;
    from_utf8_lossy = comparison.from_utf8_lossy;
    files = files;
    base = base;
    head = head;
  })

pub compare_changes : ChangedSymbol → ChangedSymbol → Ordering
unfolding primary_selector status_rank
compare_changes a b =
    then_compare (compare_text (primary_selector a) (primary_selector b))
      (compare (status_rank a.status) (status_rank b.status))

unfoldable pub compute : Comparison → Result ChangesError ChangedSymbols
unfolding context_of pair_all out_of_scope sort_by compare_changes
compute comparison = do
  c ← context_of comparison
  paired ← pair_all c
  ok (record {
    symbols = sort_by compare_changes paired.symbols;
    out_of_scope = out_of_scope comparison.base comparison.head c.files c.base c.head;
  })

-- `FilterSet::is_empty`
pub filters_are_empty : FilterSet → Bool
filters_are_empty filters =
    not (is_some filters.language) && is_empty filters.change_kind && not (is_some filters.scope)

pub paths_of : ChangedSymbol → List Text
paths_of change =
    (elim change.head_path [ none ↦ [] | some path ↦ path ∷ [] ])
    ++ (elim change.base_path [ none ↦ [] | some path ↦ path ∷ [] ])

-- the filter that takes a change out, if one does
pub filtered_by : FilterSet → ChangedSymbol → Option Filters.FilterReason
unfolding paths_of language_admits scope_admits change_kind_admits status_label
filtered_by filters change =
    let paths = paths_of change in
    if not (is_empty paths) && not (any (language_admits filters) paths)
    then some Filters.FilterReason.language
    else if not (is_empty paths) && not (any (scope_admits filters) paths)
    then some Filters.FilterReason.scope
    else if not (change_kind_admits filters (some (status_label change.status)))
    then some Filters.FilterReason.change_kind
    else none

-- the loop of `filtered`
pub filter_changes : FilterSet → List ChangedSymbol → FilterLog → List ChangedSymbol × FilterLog
unfolding filtered_by record_example primary_selector
filter_changes filters [] log = ([], log)
filter_changes filters (change ∷ changes) log = elim (filtered_by filters change) [
  | none ↦ let later = filter_changes filters changes log in (change ∷ later.0, later.1)
  | some reason ↦
      filter_changes filters changes (record_example log reason (primary_selector change))
]

unfoldable pub filtered : ChangedSymbols → FilterSet → ChangedSymbols × List FilteredOut
unfolding filters_are_empty filter_changes into_filtered_out
filtered changed filters =
    let kept = filter_changes filters changed.symbols [] in
    if filters_are_empty filters
    then (changed, into_filtered_out [])
    else (record changed { symbols = kept.0 }, into_filtered_out kept.1)

abbrev refers_to : Text → Option SymbolRef → Bool
refers_to selector none = false
refers_to selector (some entry) = entry.selector == selector

unfoldable pub entries_for : ChangedSymbols → Text → List ChangedSymbol
entries_for changed selector =
    filter
      (λ (change : ChangedSymbol). refers_to selector change.base || refers_to selector change.head)
      changed.symbols
