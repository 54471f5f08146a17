-- ===== src/Changes/Pairer.antt =====
-- crates/orbit-graph-changes/src/changes.rs: `Pairer`, the ladder that pairs the symbols of the
-- base with those of the head. `Context` is what the ladder reads: `show` is the query of a
-- snapshot's graph, which reads the source of a symbol up to DEFAULT_SHOW_MAX_BYTES and says
-- whether that bound cut it short, or fails with a reason.
pub mod Emit
pub mod Rungs
pub mod Steps
pub mod Loop
pub mod Coherent
pub mod Emitted
pub mod Taken
pub mod Deltas
pub mod InFile
pub mod Climb
pub mod Shared
pub mod Failed
use mathlib.Core.Option
use orbit_graph.Common.{
  ℕ, Bool, true, false, not, ◌&&◌, ◌||◌, List, [], ◌∷◌, ◌++◌, Option, none, some, map, ◌==◌, nat_eq,
  list_eq, if◌then◌else◌, filter, contains, Result, ok, err, ◌>>=◌,
}
use orbit_graph.Common.Text.{
  Text, codes, strip_prefix, trim, is_whitespace, rsplit_once, split_once,
}
use orbit_graph.Selector.Path.{normalize_path_text}
use orbit_graph.Common.Maps.{get}
use orbit_graph.Selector.{Selector}
use orbit_graph.Selector.Parse.{from_str}
use orbit_graph.Changes.Types.{SnapshotSide, ChangesError, query, ChangedSymbol, FileChangeKind}
use orbit_graph.Changes.Files.{ChangedFiles, FileDelta, for_base, for_head}
use orbit_graph.Changes.Inventory.{SideInventory, IndexedSymbol, selectors_in}
use orbit_graph.Changes.Bodies.{Bytes, SymbolSource, signature_line}

pub record View : Type 0 where
  pub bytes : Bytes
  pub truncated : Bool

pub record Context : Type 0 where
  pub show : SnapshotSide → Selector → Result Text (Option View)
  pub from_utf8_lossy : Bytes → Text
  pub files : ChangedFiles
  pub base : SideInventory
  pub head : SideInventory

-- what `Pairer` changes
pub record Pairer : Type 0 where
  pub unpaired_base : List Text
  pub unpaired_head : List Text
  pub symbols : List ChangedSymbol

pub source_in : (Bytes → Text) → View → SymbolSource
unfolding signature_line
source_in from_utf8_lossy view = record {
  bytes = view.bytes;
  signature = signature_line from_utf8_lossy view.bytes;
  truncated = view.truncated;
}

abbrev pub read_source : Text
read_source = codes "read changed symbol source"

-- a failed `show`, and the source of a view
unfoldable pub viewed :
    (Bytes → Text)
    → SnapshotSide
    → Result Text (Option View)
    → Result ChangesError (Option SymbolSource)
unfolding source_in
viewed from_utf8_lossy side (err reason) = err (query read_source side reason)
viewed from_utf8_lossy side (ok view) = ok (Option.map (source_in from_utf8_lossy) view)

-- `source_of`: a text that is no selector has no source
unfoldable pub source_of : Context → SnapshotSide → Text → Result ChangesError (Option SymbolSource)
unfolding viewed from_str strip_prefix trim is_whitespace rsplit_once split_once normalize_path_text
source_of c side selector = elim (from_str selector) [
  | err _ ↦ ok none
  | ok parsed ↦ viewed c.from_utf8_lossy side (c.show side parsed)
]

abbrev pub FileChange : Type 0
FileChange = FileChangeKind × Option Text × Option Text

pub file_change_at : Text → Option FileDelta → FileChange
file_change_at path none = (FileChangeKind.other, some path, some path)
file_change_at path (some delta) = (delta.kind, delta.base_path, delta.head_path)

unfoldable pub file_change_for_base : Context → Text → FileChange
unfolding get for_base file_change_at
file_change_for_base c selector = elim (get selector c.base.symbols) [
  | none ↦ (FileChangeKind.other, none, none)
  | some s ↦ file_change_at s.path (for_base c.files s.path)
]

unfoldable pub file_change_for_head : Context → Text → FileChange
unfolding get for_head file_change_at
file_change_for_head c selector = elim (get selector c.head.symbols) [
  | none ↦ (FileChangeKind.other, none, none)
  | some s ↦ file_change_at s.path (for_head c.files s.path)
]

-- `unpaired_in`
unfoldable pub unpaired_in : Pairer → SideInventory → Text → List Text
unfolding selectors_in
unpaired_in p inv path =
    let pending : List Text = elim inv.side [
      | SnapshotSide.base ↦ p.unpaired_base
      | SnapshotSide.head ↦ p.unpaired_head
    ] in
    filter (contains pending) (selectors_in inv path)
