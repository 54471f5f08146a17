-- ===== src/Changes/Files.antt =====
-- crates/orbit-graph-changes/src/changes.rs: the files that a Git diff touched. The diff is Git's;
-- a file's path in it is its text, where that is UTF-8, and its components.
pub mod Git
use mathlib.Core.Option
use mathlib.Core.Option.{or_else}
use orbit_graph.Common.{
  ℕ, zero, suc, Bool, true, false, ◌&&◌, ◌||◌, not, List, [], ◌∷◌, ◌++◌, Option, none, some, ◌==◌,
  nat_eq, list_eq, if◌then◌else◌, length, is_empty, collect,
}
use orbit_graph.Common.Text.{Text, codes, starts_with, join, is_some}
use orbit_graph.Common.Sort.{sort_by, compare_text}
use orbit_graph.Common.Maps.{get, put, keys}
use orbit_graph.Changes.Types.{FileChangeKind, Delta, from_delta}

pub record GitPath : Type 0 where
  pub to_str : Option Text
  pub components : List Text

pub record DiffDelta : Type 0 where
  pub status : Delta
  pub old_file : Option GitPath
  pub new_file : Option GitPath

pub record FileDelta : Type 0 where
  pub kind : FileChangeKind
  pub base_path : Option Text
  pub head_path : Option Text

pub record ChangedFiles : Type 0 where
  pub deltas : List FileDelta
  pub base_index : List (Text × ℕ)
  pub head_index : List (Text × ℕ)

-- `ChangedFiles::default`
abbrev pub no_files : ChangedFiles
no_files = record { deltas = []; base_index = []; head_index = [] }

-- one side's index after a push
pub index_path : Option Text → ℕ → List (Text × ℕ) → List (Text × ℕ)
unfolding put
index_path none at index = index
index_path (some path) at index = put path at index

-- `ChangedFiles::push`
unfoldable pub push_delta : ChangedFiles → FileDelta → ChangedFiles
unfolding index_path
push_delta files delta = record {
  deltas = files.deltas ++ delta ∷ [];
  base_index = index_path delta.base_path (length files.deltas) files.base_index;
  head_index = index_path delta.head_path (length files.deltas) files.head_index;
}

abbrev delta_at : List FileDelta → ℕ → Option FileDelta
delta_at [] at = none
delta_at (delta ∷ deltas) zero = some delta
delta_at (delta ∷ deltas) (suc at) = delta_at deltas at

unfoldable pub for_base : ChangedFiles → Text → Option FileDelta
unfolding get Option.bind
for_base files path = Option.bind (get path files.base_index) (delta_at files.deltas)

unfoldable pub for_head : ChangedFiles → Text → Option FileDelta
unfolding get Option.bind
for_head files path = Option.bind (get path files.head_index) (delta_at files.deltas)

unfoldable pub base_paths : ChangedFiles → List Text
unfolding sort_by
base_paths files = sort_by compare_text (keys files.base_index)

unfoldable pub head_paths : ChangedFiles → List Text
unfolding sort_by
head_paths files = sort_by compare_text (keys files.head_index)

abbrev pub is_rename : FileChangeKind → Bool
is_rename FileChangeKind.renamed = true
is_rename FileChangeKind.copied = true
is_rename FileChangeKind.added = false
is_rename FileChangeKind.deleted = false
is_rename FileChangeKind.modified = false
is_rename FileChangeKind.type_changed = false
is_rename FileChangeKind.other = false

abbrev both_paths : FileDelta → Option (Text × Text × FileChangeKind)
both_paths delta =
    Option.bind delta.base_path (λ b. Option.map (λ h. (b, h, delta.kind)) delta.head_path)

unfoldable pub renamed_pair : FileDelta → Option (Text × Text × FileChangeKind)
unfolding Option.bind
renamed_pair delta = if is_rename delta.kind then both_paths delta else none

unfoldable pub renamed_pairs : ChangedFiles → List (Text × Text × FileChangeKind)
unfolding renamed_pair
renamed_pairs files = collect renamed_pair files.deltas

-- `path_of`
unfoldable pub path_of : Option GitPath → Option Text
unfolding join
path_of none = none
path_of (some path) =
    if is_empty path.components then none else some (join (codes "/") path.components)

-- the scratch state of the graph is never source
pub is_scratch : DiffDelta → Bool
unfolding starts_with or_else Option.bind
is_scratch delta = elim (Option.bind (or_else delta.new_file delta.old_file) (λ p. p.to_str)) [
  | none ↦ false
  | some path ↦ path == codes ".orbit-graph" || starts_with (codes ".orbit-graph/") path
]

pub base_path_of : FileChangeKind → DiffDelta → Option Text
unfolding path_of
base_path_of FileChangeKind.added delta = none
base_path_of FileChangeKind.deleted delta = path_of delta.old_file
base_path_of FileChangeKind.modified delta = path_of delta.old_file
base_path_of FileChangeKind.renamed delta = path_of delta.old_file
base_path_of FileChangeKind.copied delta = path_of delta.old_file
base_path_of FileChangeKind.type_changed delta = path_of delta.old_file
base_path_of FileChangeKind.other delta = path_of delta.old_file

pub head_path_of : FileChangeKind → DiffDelta → Option Text
unfolding path_of
head_path_of FileChangeKind.deleted delta = none
head_path_of FileChangeKind.added delta = path_of delta.new_file
head_path_of FileChangeKind.modified delta = path_of delta.new_file
head_path_of FileChangeKind.renamed delta = path_of delta.new_file
head_path_of FileChangeKind.copied delta = path_of delta.new_file
head_path_of FileChangeKind.type_changed delta = path_of delta.new_file
head_path_of FileChangeKind.other delta = path_of delta.new_file

-- the body of the loop of `changed_files`
pub add_delta : ChangedFiles → DiffDelta → ChangedFiles
unfolding push_delta is_scratch base_path_of head_path_of from_delta
add_delta files delta =
    let kind = from_delta delta.status in
    let base_path = base_path_of kind delta in
    let head_path = head_path_of kind delta in
    if is_scratch delta || (not (is_some base_path) && not (is_some head_path))
    then files
    else push_delta files (record { kind = kind; base_path = base_path; head_path = head_path })

unfoldable pub add_deltas : ChangedFiles → List DiffDelta → ChangedFiles
unfolding add_delta
add_deltas files [] = files
add_deltas files (delta ∷ deltas) = add_deltas (add_delta files delta) deltas
